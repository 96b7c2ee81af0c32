-- ===== src/Query/Diagnostics/Suspects.antt =====
-- The releases that are suspected of an error: `ServeSuspectCommits` behind its checks, and
-- `spanErrorShareAround`. The scores are whole numbers; a count is one too.
use Prim.Native.Char.{code}
use Prim.Native.String.{◌++◌}
use opa_hub.Prelude.{
  ℕ, suc, ◌+◌, String, Bool, true, false, Option, none, some, List, [], ◌∷◌, ◌⊎◌, inl, inr, ◌==◌,
  ◌&&◌, ◌||◌, not, eqb, ltb, is_empty, if◌then◌else◌,
}
use opa_hub.Text.{trim_space, trim_right_slash}
use opa_hub.Query.Numbers.{decimal}
use opa_hub.Query.Sql.{raw, quoted, number, Sql}
use opa_hub.Query.Db.{Row, Db, done, query, ◌>>=◌}
use opa_hub.Query.Diagnostics.{with_service}

-- The arithmetic of floating-point numbers that the score uses, and the JSON of stored values.
pub record Values (F J : Type 0) : Type 0 where
  pub zero_value : F
  -- `a > b * 1.5 && a > 0.01`
  pub risen : F → F → Bool
  -- `int(x)` of a count, and `e / float64(c)`
  pub to_int : F → ℕ
  pub share : F → ℕ → F
  -- the verb %.2f of a hundred times a number
  pub percent : F → String
  -- `json.Unmarshal` into a list, the empty one where it fails
  pub commits : String → List J
  -- `json.Unmarshal` into any value, nil where it fails
  pub decoded : String → J

pub record Suspect (J : Type 0) : Type 0 where
  pub service : String
  pub release : String
  pub git_sha : String
  pub git_repo : String
  pub author : String
  pub message : String
  pub deployed_at : String
  pub score : ℕ
  pub evidence : List String
  pub commits : List J
  pub diff_url : String

-- `strings.ReplaceAll(s, "T", " ")`
unfoldable pub spaced : String → String
spaced String.[] = ""
spaced (String.◌∷◌ c s) = if eqb (code c) b'T' then " " ++ spaced s else String.◌∷◌ c (spaced s)

-- the part before the first Z or +, and its length; none where there is neither
before_zone : String → Option (String × ℕ)
before_zone String.[] = none
before_zone (String.◌∷◌ c s) =
    let rest = before_zone s in
    if eqb (code c) b'Z' || eqb (code c) b'+'
    then some ("", 0)
    else elim rest [ none ↦ none | some (t, n) ↦ some (String.◌∷◌ c t, suc n) ]

-- without the zone, where more than ten characters stand before it
unfoldable pub normalized : String → String
unfolding spaced before_zone
normalized deployed_at =
    let s = spaced deployed_at in
    elim (before_zone s) [ none ↦ s | some (t, n) ↦ if ltb 10 n then trim_space t else s ]

module _ {F : Type 0} where
  abbrev pub suspects_sql : String × String → ℕ → String → Sql F
  suspects_sql (org, proj) hours svc =
      raw
        "\n\t\tSELECT service, release, git_sha, git_repo, author, message, commits_json, deployed_at\n\t\tFROM opa.release_markers FINAL\n\t\tWHERE organization_id = "
      ∷ quoted org
      ∷ raw " AND project_id = "
      ∷ quoted proj
      ∷ raw "\n\t\t  AND deployed_at >= now() - INTERVAL "
      ∷ number hours
      ∷ raw " HOUR"
      ∷ with_service svc (raw "\n\t\tORDER BY deployed_at DESC LIMIT 50" ∷ [])

  -- the end of the statement of `spanErrorShareAround`
  abbrev hour_around : Bool → String → Sql F
  hour_around true dep =
      raw "\n\t\t\t  AND created_at >= toDateTime64("
      ∷ quoted dep
      ∷ raw ", 3)\n\t\t\t  AND created_at < toDateTime64("
      ∷ quoted dep
      ∷ raw ", 3) + INTERVAL 1 HOUR"
      ∷ []
  hour_around false dep =
      raw "\n\t\t\t  AND created_at < toDateTime64("
      ∷ quoted dep
      ∷ raw ", 3)\n\t\t\t  AND created_at >= toDateTime64("
      ∷ quoted dep
      ∷ raw ", 3) - INTERVAL 1 HOUR"
      ∷ []

  abbrev pub share_sql : String × String → String → Bool → String → Sql F
  share_sql (org, proj) svc after dep =
      raw
        "\n\t\t\tSELECT count() AS c, countIf(status_code >= 500) AS errs\n\t\t\tFROM opa.spans_min\n\t\t\tWHERE organization_id = "
      ∷ quoted org
      ∷ raw " AND project_id = "
      ∷ quoted proj
      ∷ with_service svc (hour_around after dep)

module _ {F J : Type 0} (m : Values F J) where
  abbrev share_of : String ⊎ List (Row F) → F × ℕ
  share_of (inl e) = (m.zero_value, 0)
  share_of (inr []) = (m.zero_value, 0)
  share_of (inr (row ∷ rows)) =
      let c = m.to_int (row.float "c") in
      if eqb c 0 then (m.zero_value, 0) else (m.share (row.float "errs") c, c)

  -- `spanErrorShareAround`
  unfoldable pub span_error_share_around : String × String → String → String → Bool → Db F (F × ℕ)
  span_error_share_around owner svc deployed_at after =
      if deployed_at == ""
      then done (m.zero_value, 0)
      else query (share_sql owner svc after (normalized deployed_at)) (λ r. done (share_of r))

  abbrev evidence_of : F × ℕ → F × ℕ → List String
  evidence_of (err_after, tot_after) (err_before, n) =
      if ltb 0 tot_after && m.risen err_after err_before
      then ("error rate "
          ++ (m.percent err_before ++ ("% → " ++ (m.percent err_after ++ "% around deploy"))))
        ∷ []
      else if ltb 0 tot_after
      then ("error rate stable ("
          ++ (m.percent err_after ++ ("% after, n=" ++ (decimal tot_after ++ ")"))))
        ∷ []
      else []

  -- 40, with 40 more for a rise of the error rate and 5 more for commits
  unfoldable pub score_of : F × ℕ → F × ℕ → List J → ℕ
  score_of (err_after, tot_after) (err_before, n) commits =
      40
      + (if ltb 0 tot_after && m.risen err_after err_before then 40 else 0)
      + (if is_empty commits then 0 else 5)

  -- a row with the error shares after and before it
  abbrev pub suspect_of : Row F → F × ℕ → F × ℕ → Suspect J
  suspect_of row after before =
      let repo = row.text "git_repo" in
      let sha = row.text "git_sha" in
      let found = m.commits (row.text "commits_json") in
      record {
        service = row.text "service";
        release = row.text "release";
        git_sha = sha;
        git_repo = repo;
        author = row.text "author";
        message = row.text "message";
        deployed_at = row.text "deployed_at";
        score = score_of after before found;
        evidence = evidence_of after before;
        commits = found;
        diff_url =
            if not (repo == "") && not (sha == "")
            then trim_right_slash repo ++ ("/commit/" ++ sha)
            else "";
      }

  -- the loop over the releases
  unfoldable pub suspects_of : String × String → List (Row F) → Db F (List (Suspect J))
  unfolding span_error_share_around
  suspects_of owner [] = done []
  suspects_of owner (row ∷ rows) =
      let later = suspects_of owner rows in
      let around = span_error_share_around owner (row.text "service") (row.text "deployed_at") in
      around true >>= (λ after.
        around false >>= (λ before. later >>= (λ rest. done (suspect_of row after before ∷ rest))))
