-- ===== src/Query/Errors/Group.antt =====
-- The change of a group of errors against an abstract state: a status with an optional assignment.
use opa_hub.Prelude.{String, true, ◌≡◌, Option, none, some, [], ◌∷◌, inr, ◌==◌, if◌then◌else◌}
use opa_hub.Http.{Response}
use opa_hub.Query.Sql.{ScopeLib, Sql}
use opa_hub.Query.Sql.Inserted.{is_insert, inserted}
use opa_hub.Query.Db.{Db, done, query, exec}
use opa_hub.Query.Errors.{Body, Json, Reply, is_status, seed_sql, group_sql, current, told}

-- what a request does with a group
pub data Change : Type 0 where
  set_status : String → Change
  assign : Option String → Change

-- the abstract step: a change of the status keeps the assignment, an assignment keeps the status, and an
-- assignment to nobody changes nothing
abbrev pub step : Change → String × Option String → String × Option String
step (set_status s) (status, assigned) = (s, assigned)
step (assign none) (status, assigned) = (status, assigned)
step (assign (some a)) (status, assigned) = (status, some a)

-- the last part of the path and the body that ask for a change
abbrev pub Asks : Change → String → Body → Type 0
Asks (set_status s) verb b = (verb ≡ "status") × (b.status ≡ s) × (is_status s ≡ true)
Asks (assign a) verb b = (verb ≡ "assign") × (b.assigned_to ≡ a)

-- a state as it is read back: an assignment to the empty text is none
abbrev pub shown : String × Option String → String × Option String
shown (status, none) = (status, none)
shown (status, some a) = (status, if a == "" then none else some a)

-- a change that leaves a group a status
abbrev Named : Change → Type 0
Named (set_status s) = is_status s ≡ true
Named (assign a) = Unit {0}

-- an INSERT of a row of a group and a tenant that is read back as a state
abbrev pub Stores :
    {F : Type 0} → F → String × String → String → String × Option String → Sql F → Type 0
Stores zero_value (org, proj) id state s =
    (is_insert s ≡ true)
    × (current (inr (inserted zero_value s ∷ [])) ≡ shown state)
    × ((inserted zero_value s).text "group_id" ≡ id)
    × ((inserted zero_value s).text "organization_id" ≡ org)
    × ((inserted zero_value s).text "project_id" ≡ proj)

module _ {F J : Type 0} (json : Json J) (l : ScopeLib F) where
  -- the statement that stores a state
  abbrev writes : String → String × Option String → Db F (Response (Reply J))
  writes id state =
      exec (group_sql l.write_tenant id state.0 state.1) (λ r. done (told id state.0 r))

  -- a read of the state, and a write of what a change makes of it
  abbrev changes : String → Change → Db F (Response (Reply J))
  changes id c = query (seed_sql id) (λ r. writes id (step c (current r)))
