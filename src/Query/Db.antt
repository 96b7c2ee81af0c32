-- ===== src/Query/Db.antt =====
-- What a query handler of internal/query does with the ClickHouse writer: it sends texts, and goes on
-- with what comes back. A handler is a tree of its statements, with a branch for every answer.
use opa_hub.Prelude.{
  ℕ, String, Bool, true, false, Option, none, some, List, ◌∷◌, ◌⊎◌, if◌then◌else◌,
}
use opa_hub.Http.{Response, write_error}
use opa_hub.Query.Sql.{Sql}

-- A row as the handlers read it: `asString`, `asUint64` and `asFloat64` of its columns. The type of
-- floating-point numbers is a parameter.
pub record Row (F : Type 0) : Type 0 where
  pub text : String → String
  pub uint : String → ℕ
  pub float : String → F

-- `Writer.Query` answers an error's text or rows, `Writer.Exec` none or an error's text.
pub data Db (F A : Type 0) : Type 0 where
  done : A → Db F A
  query : Sql F → (String ⊎ List (Row F) → Db F A) → Db F A
  exec : Sql F → (Option String → Db F A) → Db F A

infixl 5 ◌>>=◌
abbrev pub ◌>>=◌ : {F A B : Type 0} → Db F A → (A → Db F B) → Db F B
done a >>= f = f a
query s k >>= f = query s (λ r. k r >>= f)
exec s k >>= f = exec s (λ r. k r >>= f)

module _ {F : Type 0} where
  abbrev pub ask : Sql F → Db F (String ⊎ List (Row F))
  ask s = query s done

  abbrev pub tell : Sql F → Db F (Option String)
  tell s = exec s done

  -- an answer that needs no statement
  abbrev pub refuse : {A : Type 0} → ℕ → String → String → Db F (Response A)
  refuse n reason message = done (write_error n reason message)

  -- the test `h.Writer == nil` of the handlers
  abbrev pub with_writer : {A : Type 0} → Bool → Db F (Response A) → Db F (Response A)
  with_writer configured d =
      if configured then d else refuse 503 "clickhouse_unavailable" "ClickHouse not configured"

  -- every statement of a handler, whatever the answers are
  abbrev pub Every : {A : Type 0} → (Sql F → Type 0) → Db F A → Type 0
  Every P (done a) = Unit
  Every P (query s k) = P s × ((r : String ⊎ List (Row F)) → Every P (k r))
  Every P (exec s k) = P s × ((r : Option String) → Every P (k r))

  -- every result of a handler
  abbrev pub Results : {A : Type 0} → (A → Type 0) → Db F A → Type 0
  Results P (done a) = P a
  Results P (query s k) = (r : String ⊎ List (Row F)) → Results P (k r)
  Results P (exec s k) = (r : Option String) → Results P (k r)

  -- every result of a handler with the statements that ClickHouse has accepted by then, the last first
  abbrev pub Traced : {A : Type 0} → (List (Sql F) → A → Type 0) → List (Sql F) → Db F A → Type 0
  Traced P t (done a) = P t a
  Traced P t (query s k) = (r : String ⊎ List (Row F)) → Traced P t (k r)
  Traced P t (exec s k) = Traced P (s ∷ t) (k none) × ((e : String) → Traced P t (k (some e)))

  -- every result of a handler whose writes ClickHouse accepts, whatever its reads answer
  abbrev pub Accepted : {A : Type 0} → (A → Type 0) → Db F A → Type 0
  Accepted P (done a) = P a
  Accepted P (query s k) = (r : String ⊎ List (Row F)) → Accepted P (k r)
  Accepted P (exec s k) = Accepted P (k none)

pub Every->>= :
    {F A B : Type 0} (P : Sql F → Type 0) (d : Db F A) (f : A → Db F B)
    → Every P d
    → ((a : A) → Every P (f a))
    → Every P (d >>= f)
Every->>= P (done a) f h k = k a
Every->>= P (query s g) f (p, h) k = (p, λ r. Every->>= P (g r) f (h r) k)
Every->>= P (exec s g) f (p, h) k = (p, λ r. Every->>= P (g r) f (h r) k)

pub Every-if :
    {F A : Type 0} (P : Sql F → Type 0) (b : Bool) (d e : Db F A)
    → Every P d
    → Every P e
    → Every P (if b then d else e)
Every-if P true d e h k = h
Every-if P false d e h k = k

pub Results-if :
    {F A : Type 0} (P : A → Type 0) (b : Bool) (d e : Db F A)
    → Results P d
    → Results P e
    → Results P (if b then d else e)
Results-if P true d e h k = h
Results-if P false d e h k = k

pub Results->>= :
    {F A B : Type 0} (P : A → Type 0) (Q : B → Type 0) (d : Db F A) (f : A → Db F B)
    → Results P d
    → ((a : A) → P a → Results Q (f a))
    → Results Q (d >>= f)
Results->>= P Q (done a) f h k = k a h
Results->>= P Q (query s g) f h k = λ r. Results->>= P Q (g r) f (h r) k
Results->>= P Q (exec s g) f h k = λ r. Results->>= P Q (g r) f (h r) k

pub Results-any : {F A : Type 0} (d : Db F A) → Results (λ a. Unit) d
Results-any (done a) = tt
Results-any (query s k) = λ r. Results-any (k r)
Results-any (exec s k) = λ r. Results-any (k r)

pub Traced->>= :
    {F A B : Type 0} (P : List (Sql F) → B → Type 0) (t : List (Sql F)) (d : Db F A)
    (f : A → Db F B)
    → Traced (λ u a. Traced P u (f a)) t d
    → Traced P t (d >>= f)
Traced->>= P t (done a) f h = h
Traced->>= P t (query s k) f h = λ r. Traced->>= P t (k r) f (h r)
Traced->>= P t (exec s k) f (h, m) =
    (Traced->>= P (s ∷ t) (k none) f h, λ e. Traced->>= P t (k (some e)) f (m e))

-- what later statements keep holds of every result
pub Traced-kept :
    {F A : Type 0} (C : List (Sql F) → Type 0) (P : List (Sql F) → A → Type 0)
    → ((s : Sql F) (t : List (Sql F)) → C t → C (s ∷ t))
    → ((t : List (Sql F)) (a : A) → C t → P t a)
    → (t : List (Sql F)) (d : Db F A) → C t
    → Traced P t d
Traced-kept C P later holds t (done a) c = holds t a c
Traced-kept C P later holds t (query s k) c = λ r. Traced-kept C P later holds t (k r) c
Traced-kept C P later holds t (exec s k) c = (
  Traced-kept C P later holds (s ∷ t) (k none) (later s t c),
  λ e. Traced-kept C P later holds t (k (some e)) c,
)

pub Traced-if :
    {F A : Type 0} (P : List (Sql F) → A → Type 0) (t : List (Sql F)) (b : Bool) (d e : Db F A)
    → Traced P t d
    → Traced P t e
    → Traced P t (if b then d else e)
Traced-if P t true d e h k = h
Traced-if P t false d e h k = k

-- what holds of every result of the continuation
pub Accepted->>= :
    {F A B : Type 0} (P : B → Type 0) (d : Db F A) (f : A → Db F B)
    → ((a : A) → Accepted P (f a))
    → Accepted P (d >>= f)
Accepted->>= P (done a) f h = h a
Accepted->>= P (query s k) f h = λ r. Accepted->>= P (k r) f h
Accepted->>= P (exec s k) f h = Accepted->>= P (k none) f h
