-- ===== src/LoginCode.antt =====
-- backend/app/services/admin_login_code_service.py, and the exchange of a code in
-- backend/app/api/admin_security.py. The keys of Redis are three maps, by their prefixes: a code is six
-- digits, so no code's key is one of the others. The draws of `secrets.randbelow` are a parameter. The
-- commands of one call are one step: calls that overlap are not modelled.
pub mod Newest
use kans_shop.Prelude.{
  ℕ, zero, suc, ◌+◌, Bool, true, false, ◌&&◌, ◌||◌, not, Option, none, some, List, [], ◌∷◌, leb,
  ltb, ◌==◌, is_some, is_number, take, if◌then◌else◌,
}

-- Seconds.
abbrev pub code_ttl_seconds : ℕ
code_ttl_seconds = 300

abbrev pub request_cooldown_seconds : ℕ
request_cooldown_seconds = 60

-- A value with the time at which Redis drops it.
pub record Entry : Type 0 where
  pub value : ℕ
  pub expires : ℕ

abbrev pub Entries : Type 0
Entries = ℕ → Option Entry

pub record Redis : Type 0 where
  pub codes : Entries
  pub latest : Entries
  pub cooldowns : Entries

abbrev pub alive : ℕ → Option Entry → Option ℕ
alive now none = none
alive now (some e) = if ltb now e.expires then some e.value else none

-- GET
abbrev pub get : ℕ → Entries → ℕ → Option ℕ
get now m k = alive now (m k)

-- SET with `ex`
abbrev pub set : ℕ → ℕ → ℕ → ℕ → Entries → Entries
set now ttl k v m j = if k == j then some (record { value = v; expires = now + ttl }) else m j

-- DEL
abbrev pub del : ℕ → Entries → Entries
del k m j = if k == j then none else m j

-- The loop over the attempts: the first draw that is no live code (`nx`).
unfoldable pub first_free : ℕ → Entries → List ℕ → Option ℕ
first_free now codes [] = none
first_free now codes (c ∷ draws) =
    let next = first_free now codes draws in if is_some (get now codes c) then next else some c

-- `_DELETE_IF_OWNED_SCRIPT`
abbrev pub delete_if_owned : ℕ → ℕ → ℕ → Entries → Entries
delete_if_owned now code owner codes =
    if is_number owner (get now codes code) then del code codes else codes

abbrev pub revoke_previous : ℕ → ℕ → ℕ → Option ℕ → Entries → Entries
revoke_previous now owner code none codes = codes
revoke_previous now owner code (some previous) codes =
    if previous == code then codes else delete_if_owned now previous owner codes

abbrev pub issued : ℕ → ℕ → Redis → ℕ → Redis
issued now owner r code = record r {
  codes =
      revoke_previous now owner code (get now r.latest owner)
        (set now code_ttl_seconds code owner r.codes);
  latest = set now code_ttl_seconds owner code r.latest;
}

abbrev issue_found : ℕ → ℕ → Redis → Option ℕ → Option (ℕ × Redis)
issue_found now owner r none = none
issue_found now owner r (some code) = some (code, issued now owner r code)

-- The code, or nothing where the code raises `RuntimeError` after ten attempts.
unfoldable pub issue_admin_login_code : ℕ → ℕ → List ℕ → Redis → Option (ℕ × Redis)
issue_admin_login_code now owner draws r =
    issue_found now owner r (first_free now r.codes (take 10 draws))

unfoldable pub claim_request_slot : ℕ → ℕ → Redis → Bool × Redis
claim_request_slot now owner r =
    if is_some (get now r.cooldowns owner)
    then (false, r)
    else (true, record r { cooldowns = set now request_cooldown_seconds owner 1 r.cooldowns })

unfoldable pub release_request_slot : ℕ → Redis → Redis
release_request_slot owner r = record r { cooldowns = del owner r.cooldowns }

-- GETDEL in `exchange_admin_code`: whose code it is, once.
unfoldable pub take_code : ℕ → ℕ → Redis → Option ℕ × Redis
take_code now code r = (get now r.codes code, record r { codes = del code r.codes })

pub data CodeCall : Type 0 where
  issue : ℕ → List ℕ → CodeCall
  exchange claim release : ℕ → CodeCall

abbrev kept : Redis → Option (ℕ × Redis) → Redis
kept r none = r
kept r (some p) = p.1

unfoldable pub code_call : ℕ → CodeCall → Redis → Redis
code_call now (issue owner draws) r = kept r (issue_admin_login_code now owner draws r)
code_call now (exchange code) r = (take_code now code r).1
code_call now (claim owner) r = (claim_request_slot now owner r).1
code_call now (release owner) r = release_request_slot owner r

-- The calls in order, each with the seconds since the one before it: the time and the store after them.
unfoldable pub code_calls : List (ℕ × CodeCall) → ℕ × Redis → ℕ × Redis
code_calls [] s = s
code_calls ((wait, c) ∷ rest) (now, r) = code_calls rest (now + wait, code_call (now + wait) c r)

abbrev pub empty_redis : Redis
empty_redis = record { codes = λ k. none; latest = λ k. none; cooldowns = λ k. none }
