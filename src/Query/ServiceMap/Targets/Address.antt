-- ===== src/Query/ServiceMap/Targets/Address.antt =====
-- Reading back the address of a host.
use Prim.Native.Char.{Char, code}
use Prim.Native.String.{◌++◌}
use text.Mathlib.TextLemmas.{nil-append, cons-append, append_assoc}
use opa_hub.Prelude.{
  ℕ, String, Bool, false, ◌≡◌, ◌≢◌, refl, sym, ◌∙◌, ◌⊎◌, inl, inr, none, some, [], ◌∷◌, ◌==◌, ◌||◌,
  eqb, eq_iff, arith, if◌then◌else◌,
}
use opa_hub.Text.{has_prefix, trim_prefix, contains_any}
use opa_hub.Text.Prefix.{
  has_prefix-append, trim_prefix-append, parts_from, parts_from-has_prefix, contains_any-append,
}
use opa_hub.Text.Split.{split_slash}
use opa_hub.Query.ServiceMap.Targets.{
  before_slash, last_colon, host_port, at_host, parse_http_target,
}

abbrev pub has_char : ℕ → String → Bool
has_char d s = contains_any (λ c. eqb c d) s

or_left : (a b : Bool) → (a || b) ≡ false → a ≡ false
or_left a b h = ground arith

or_right : (a b : Bool) → (a || b) ≡ false → b ≡ false
or_right a b h = ground arith

split_slash-plain : (s : String) → has_char b'/' s ≡ false → split_slash s ≡ s ∷ []
unfolding split_slash contains_any
split_slash-plain String.[] h = refl
split_slash-plain (String.◌∷◌ c s) h =
    rw (or_left (eqb (code c) b'/') _ h, split_slash-plain s (or_right (eqb (code c) b'/') _ h))
      refl

before_slash-plain : (s : String) → has_char b'/' s ≡ false → before_slash s ≡ s
unfolding before_slash
before_slash-plain s h = rw (split_slash-plain s h) refl

last_colon-plain : (s : String) → has_char b':' s ≡ false → last_colon s ≡ none
unfolding last_colon contains_any
last_colon-plain String.[] h = refl
last_colon-plain (String.◌∷◌ c s) h =
    rw (last_colon-plain s (or_right (eqb (code c) b':') _ h), or_left (eqb (code c) b':') _ h) refl

colon_first : (s : String) → last_colon s ≡ none → last_colon (":" ++ s) ≡ some ("", s)
unfolding last_colon
colon_first s h = rw (cons-append, nil-append, h) refl

last_colon-later :
    (c : Char) (s before behind : String)
    → last_colon s ≡ some (before, behind)
    → last_colon (String.◌∷◌ c s) ≡ some (String.◌∷◌ c before, behind)
unfolding last_colon
last_colon-later c s before behind h = rw h refl

last_colon-append :
    (host port : String)
    → has_char b':' port ≡ false
    → last_colon (host ++ (":" ++ port)) ≡ some (host, port)
last_colon-append String.[] port h = rw nil-append (colon_first port (last_colon-plain port h))
last_colon-append (String.◌∷◌ c host) port h =
    rw cons-append (last_colon-later c _ host port (last_colon-append host port h))

-- an address of a host and a port
abbrev pub address : String × String × String → String
address (host, port, scheme) = scheme ++ ("://" ++ (host ++ (":" ++ port)))

colon_slash : has_char b'/' ":" ≡ false
unfolding contains_any
colon_slash = refl

module _ (host port : String) (named : host ≢ "") (plain : has_char b'/' host ≡ false)
    (digits : has_char b'/' port ≡ false) (one_colon : has_char b':' port ≡ false)
    (no_bracket : has_char b']' port ≡ false) where
  whole : before_slash (host ++ (":" ++ port)) ≡ host ++ (":" ++ port)
  whole = before_slash-plain _ (
      contains_any-append _ host (":" ++ port) plain
        (contains_any-append _ ":" port colon_slash digits))

  taken :
      (scheme : String)
      → host_port scheme (host ++ (":" ++ port)) (some (host, port)) ≡ (host, port, scheme)
  unfolding host_port
  taken scheme =
      let not_nil : (host == "") ≡ false = ground (arith, eq_iff host "") in
      rw (not_nil, no_bracket) refl

  read : (scheme : String) → at_host scheme (host ++ (":" ++ port)) ≡ (host, port, scheme)
  read scheme = rw (whole, last_colon-append host port one_colon) (taken scheme)

https_address : (r : String) → "https" ++ ("://" ++ r) ≡ "https://" ++ r
https_address r = sym (append_assoc "https" "://" r)

http_address : (r : String) → "http" ++ ("://" ++ r) ≡ "http://" ++ r
http_address r = sym (append_assoc "http" "://" r)

http_is_not_https : (r : String) → has_prefix ("http://" ++ r) "https://" ≡ false
unfolding parts_from
http_is_not_https r = parts_from-has_prefix "http://" r "https://" refl

parse_cases :
    (url : String)
    → parse_http_target url ≡ (
        if has_prefix url "https://"
        then at_host "https" (trim_prefix url "https://")
        else if has_prefix url "http://"
        then at_host "http" (trim_prefix url "http://")
        else at_host "http" url)
unfolding parse_http_target
parse_cases url = refl

parse_https : (r : String) → parse_http_target ("https://" ++ r) ≡ at_host "https" r
parse_https r =
    parse_cases ("https://" ++ r)
    ∙ rw (has_prefix-append "https://" r, trim_prefix-append "https://" r) refl

parse_http : (r : String) → parse_http_target ("http://" ++ r) ≡ at_host "http" r
parse_http r =
    parse_cases ("http://" ++ r)
    ∙ rw (http_is_not_https r, has_prefix-append "http://" r, trim_prefix-append "http://" r) refl

-- A host, a port and a scheme are read back from their address by `parseHTTPTarget`: where the scheme is
-- "http" or "https", the host is not empty and has no slash, and the port has no slash, colon or closing
-- bracket. Colons of the host, as in an IPv6 address, stay in the host.
pub parse_http_target-address :
    (host port scheme : String)
    → (scheme ≡ "http") ⊎ (scheme ≡ "https")
    → host ≢ ""
    → has_char b'/' host ≡ false
    → has_char b'/' port ≡ false
    → has_char b':' port ≡ false
    → has_char b']' port ≡ false
    → parse_http_target (address (host, port, scheme)) ≡ (host, port, scheme)
parse_http_target-address host port scheme (inl s) n p d c b =
    rw (s, http_address (host ++ (":" ++ port)), parse_http (host ++ (":" ++ port)))
      (read host port n p d c b "http")
parse_http_target-address host port scheme (inr s) n p d c b =
    rw (s, https_address (host ++ (":" ++ port)), parse_https (host ++ (":" ++ port)))
      (read host port n p d c b "https")
