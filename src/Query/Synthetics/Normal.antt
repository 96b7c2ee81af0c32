-- ===== src/Query/Synthetics/Normal.antt =====
-- What a normalized check is.
use opa_hub.Prelude.{
  ℕ, ◌≤◌, String, Bool, true, false, ◌≡◌, ◌≢◌, refl, ◌==◌, eq_iff, arith, if◌then◌else◌,
}
use opa_hub.Text.{trim_space}
use opa_hub.Query.Synthetics.{SyntheticCheck, interval_of, timeout_of, normalize_synthetic_check}

-- the limits of a check
pub record IsNormal (c : SyntheticCheck) : Type 0 where
  pub interval_low : 15 ≤ c.interval_seconds
  pub timeout_low : 1 ≤ c.timeout_ms
  pub timeout_high : c.timeout_ms ≤ 60000
  pub enabled_flag : c.enabled ≤ 1
  pub has_method : c.method ≢ ""
  pub has_headers : c.headers ≢ ""

interval_low_of : (n : ℕ) → 15 ≤ interval_of n
interval_low_of n = ground arith

timeout_range_of : (n : ℕ) → (1 ≤ timeout_of n) × (timeout_of n ≤ 60000)
timeout_range_of n = ground arith

-- a text or a default
defaulted : (s d : String) → d ≢ "" → (if s == "" then d else s) ≢ ""
defaulted s d n = ground (arith, eq_iff s "", eq_iff d "")

get_named : ◌≢◌ {A = String} "GET" ""
get_named e = ground (arith, eq_iff "GET" "")

headers_by : (b : Bool) (h : String) → (h ≡ "" → b ≡ true) → (if b then "{}" else h) ≢ ""
headers_by true h k = ground (arith, eq_iff "{}" "")
headers_by false h k = λ e. let t = k e in ground arith

headers_of : (h : String) → (if trim_space h == "" then "{}" else h) ≢ ""
unfolding trim_space
headers_of h = headers_by (trim_space h == "") h (λ e. rw e refl)

module _ (to_upper : String → String) where
  pub normalize_synthetic_check-IsNormal :
      (c : SyntheticCheck) → IsNormal (normalize_synthetic_check to_upper c)
  unfolding normalize_synthetic_check
  normalize_synthetic_check-IsNormal c = record {
    interval_low = interval_low_of c.interval_seconds;
    timeout_low = (timeout_range_of c.timeout_ms).0;
    timeout_high = (timeout_range_of c.timeout_ms).1;
    enabled_flag = ground arith;
    has_method = defaulted (to_upper (trim_space c.method)) "GET" get_named;
    has_headers = headers_of c.headers;
  }
