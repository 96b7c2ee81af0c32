-- ===== src/Http.antt =====
-- What the handlers read of a `*http.Request` and write to the `http.ResponseWriter`. A body is
-- what `json.NewDecoder(http.MaxBytesReader(…)).Decode` makes of it: `none` where it fails.
use opa_hub.Prelude.{ℕ, String, Bool, true, false, Option, none, some, ◌==◌, if◌then◌else◌}
use opa_hub.Text.{lower_has_prefix, slice_from, trim_space}

pub record Request (B : Type 0) : Type 0 where
  pub method : String
  pub path : String
  -- `r.Header.Get`, "" for a header that is absent
  pub header : String → String
  -- `r.URL.Query().Get`, "" for a parameter that is absent
  pub query : String → String
  pub body : Option B

-- `openhttp.WriteError` with its status, code and message, or a status with an encoded value
pub data Response (A : Type 0) : Type 0 where
  write_error : ℕ → String → String → Response A
  write_json : ℕ → A → Response A

-- the status that the client sees
abbrev pub status_code : {A : Type 0} → Response A → ℕ
status_code (write_error n c m) = n
status_code (write_json n a) = n

abbrev pub is_error : {A : Type 0} → Response A → Bool
is_error (write_error n c m) = true
is_error (write_json n a) = false

abbrev pub method_not_allowed : {A : Type 0} → String → Response A
method_not_allowed message = write_error 405 "method_not_allowed" message

-- `r.Header.Set(k, v)`
abbrev pub set_header : {B : Type 0} → String → String → Request B → Request B
set_header k v r = record r { header = λ j. if k == j then v else r.header j }

-- The token behind "Bearer " in an Authorization header, none where the header is of another form.
unfoldable pub bearer_token : String → Option String
unfolding lower_has_prefix slice_from trim_space
bearer_token auth =
    if lower_has_prefix auth "bearer " then some (trim_space (slice_from 7 auth)) else none
