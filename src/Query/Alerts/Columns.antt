-- ===== src/Query/Alerts/Columns.antt =====
-- What a later read makes of a rule that `persistAlert` writes.
use Prim.Native.String.{◌++◌}
use opa_hub.Prelude.{
  String, Bool, true, false, ◌≡◌, ◌≢◌, refl, Option, none, some, List, [], ◌∷◌, ◌==◌, eq_iff, ltb,
  if◌then◌else◌, arith,
}
use opa_hub.Query.Sql.{Piece, raw, Sql}
use opa_hub.Query.Sql.Inserted.{text_at, number_at}
use opa_hub.Query.Db.{Row}
use opa_hub.Query.Alerts.{Codec, Alert, alert_from_row, persist_sql, service_text}

-- the columns of the statement, in its order
abbrev columns : List String
columns =
    "organization_id" ∷ "project_id" ∷ "id" ∷ "name" ∷ "description" ∷ "enabled" ∷ "condition_type"
    ∷ "condition_config" ∷ "action_type" ∷ "action_config" ∷ "service" ∷ []

listed : List String → String
listed [] = ""
listed (c ∷ cs) = c ++ (", " ++ listed cs)

header : {F J : Type 0} → Codec J → Alert J → Piece F
header codec a = raw ("INSERT INTO opa.alerts (" ++ (listed columns ++ "updated_at) VALUES ("))

first_piece : {F : Type 0} → Sql F → Piece F
first_piece [] = raw ""
first_piece (p ∷ ps) = p

columns-persist_sql :
    {F J : Type 0} (codec : Codec J) (a : Alert J)
    → first_piece {F = F} (persist_sql codec a) ≡ header codec a
unfolding header listed first_piece
columns-persist_sql codec a = refl

module _ {F : Type 0} where
  -- the row that the statement inserts, without floating-point columns
  abbrev pub inserted_row : F → Sql F → Row F
  inserted_row zero_value ps = record {
    text = text_at columns ps;
    uint = number_at columns ps;
    float = λ k. zero_value;
  }

enabled_again : (b : Bool) → ltb 0 (if b then 1 else 0) ≡ b
enabled_again true = refl
enabled_again false = refl

abbrev optional : String → Option String
optional s = if s == "" then none else some s

service_again : (s : Option String) → s ≢ some "" → optional (service_text s) ≡ s
service_again none h = refl
service_again (some s) h = ground (arith, eq_iff s "")

abbrev with_parts : {J : Type 0} → Alert J → Bool → J → J → Option String → Alert J
with_parts a b x y s = record a {
  enabled = b;
  condition_config = x;
  action_config = y;
  service = s;
}

with_parts_path :
    {J : Type 0} (a : Alert J) {b b' : Bool} {x x' y y' : J} {s s' : Option String}
    → b ≡ b'
    → x ≡ x'
    → y ≡ y'
    → s ≡ s'
    → with_parts a b x y s ≡ with_parts a b' x' y' s'
with_parts_path a p q r t = rw (p, q, r, t) refl

module _ {F J : Type 0} (codec : Codec J) where
  -- A rule that is written is read back as it was: `alertFromRow` of the values that `persistAlert`
  -- inserts is the rule, where JSON decodes what it encodes and the rule has no empty service text.
  pub alert_from_row-persist_sql :
      (zero_value : F) (a : Alert J)
      → ((x : J) → codec.unmarshal (codec.marshal x) ≡ x)
      → a.service ≢ some ""
      → alert_from_row codec (inserted_row zero_value (persist_sql codec a)) ≡ a
  unfolding alert_from_row
  alert_from_row-persist_sql zero_value a decodes named =
      with_parts_path a (enabled_again a.enabled) (decodes a.condition_config)
        (decodes a.action_config) (service_again a.service named)
