-- ===== src/LoginCode/Newest.antt =====
-- Only the newest code of an administrator works (backend/app/services/admin_login_code_service.py).
use kans_shop.Prelude.{
  ℕ, ◌+◌, ◌≡◌, true, false, Option, none, some, List, [], ◌∷◌, is_some, is_number, take, ltb, ◌==◌,
  arith, inl, inr, Bool-cases, Option-cases,
}
use mathlib.Core.Path.{subst}
use kans_shop.LoginCode.{
  issued, Entry, Entries, Redis, get, set, del, code_ttl_seconds, request_cooldown_seconds,
  first_free, revoke_previous, issue_admin_login_code, claim_request_slot, release_request_slot,
  take_code, CodeCall, issue, exchange, claim, release, code_call, code_calls, empty_redis,
}

-- A code that is alive is the latest one of its owner, and expires with it.
IsNewest : ℕ → Redis → Type 0
IsNewest now r =
    (c : ℕ) (e : Entry)
    → r.codes c ≡ some e
    → ltb now e.expires ≡ true
    → r.latest e.value ≡ some (record { value = c; expires = e.expires })

-- What is left after the previous code has been revoked was there before.
revoke_previous_inv :
    (now owner code : ℕ) (previous : Option ℕ) (codes : Entries) (c : ℕ) (e : Entry)
    → revoke_previous now owner code previous codes c ≡ some e
    → codes c ≡ some e
revoke_previous_inv now owner code none codes c e h = h
revoke_previous_inv now owner code (some p) codes c e h = elim (Bool-cases (p == code)) [
  | inl again ↦ ground (arith, again, h)
  | inr other ↦ elim (Bool-cases (is_number owner (get now codes p))) [
    | inl own ↦ ground (arith, other, own, h)
    | inr not_own ↦ ground (arith, other, not_own, h)
  ]
]

-- The previous code is gone if it is still the owner's.
revoke_previous_gone :
    (now owner code p : ℕ) (codes : Entries)
    → (p == code) ≡ false
    → get now codes p ≡ some owner
    → revoke_previous now owner code (some p) codes p ≡ none
revoke_previous_gone now owner code p codes other own = ground (arith, other, own)

issue-IsNewest :
    (now owner code : ℕ) (r : Redis)
    → IsNewest now r
    → IsNewest now (record r {
      codes =
          revoke_previous now owner code
            (get now r.latest owner)
            (set now code_ttl_seconds code owner r.codes);
      latest = set now code_ttl_seconds owner code r.latest;
    })
unfolding IsNewest
issue-IsNewest now owner code r h c e f le =
    let before =
      revoke_previous_inv now owner code (get now r.latest owner)
        (set now code_ttl_seconds code owner r.codes) c e f in
    elim (Bool-cases (code == c)) [
      | inl new ↦ ground (arith, new, before)
      | inr old ↦
          let was : r.codes c ≡ some e = ground (arith, old, before) in
          let newest = h c e was le in
          elim (Bool-cases (owner == e.value)) [
            | inr other ↦ ground (arith, other, newest)
            | inl own ↦
                let latest : get now r.latest owner ≡ some c = ground (arith, own, newest, le) in
                let gone =
                  revoke_previous_gone now owner code c
                    (set now code_ttl_seconds code owner r.codes) (ground (arith, old))
                    (ground (arith, old, was, own, le)) in
                ground (arith, latest, gone, f)
          ]
    ]

call-IsNewest :
    (now : ℕ) (c : CodeCall) (r : Redis) → IsNewest now r → IsNewest now (code_call now c r)
unfolding IsNewest code_call issue_admin_login_code claim_request_slot release_request_slot
    take_code
call-IsNewest now (issue owner draws) r h =
    elim (Option-cases (first_free now r.codes (take 10 draws))) [
      | inl none_free ↦
          subst (IsNewest now) {x = r} {y = code_call now (issue owner draws) r}
            (ground (arith, none_free)) h
      | inr (code, free) ↦
          subst (IsNewest now) {x = issued now owner r code}
            {y = code_call now (issue owner draws) r} (ground (arith, free))
            (issue-IsNewest now owner code r h)
    ]
call-IsNewest now (exchange code) r h = fewer
  where
    fewer : IsNewest now (record r { codes = del code r.codes })
    fewer c e f le = elim (Bool-cases (code == c)) [
      | inl used ↦ ground (arith, used, f)
      | inr other ↦ h c e (ground (arith, other, f)) le
    ]
call-IsNewest now (claim owner) r h = elim (Bool-cases (is_some (get now r.cooldowns owner))) [
  | inl waits ↦
      subst (IsNewest now) {x = r} {y = code_call now (claim owner) r} (ground (arith, waits)) h
  | inr free ↦
      subst (IsNewest now)
        {x = record r { cooldowns = set now request_cooldown_seconds owner 1 r.cooldowns }}
        {y = code_call now (claim owner) r} (ground (arith, free)) (λ c e f le. h c e f le)
]
call-IsNewest now (release owner) r h = λ c e f le. h c e f le

wait-IsNewest : (now wait : ℕ) (r : Redis) → IsNewest now r → IsNewest (now + wait) r
unfolding IsNewest
wait-IsNewest now wait r h c e f le = h c e f (ground (arith, le))

calls-IsNewest :
    (cs : List (ℕ × CodeCall)) (now : ℕ) (r : Redis)
    → IsNewest now r
    → IsNewest (code_calls cs (now, r)).0 (code_calls cs (now, r)).1
unfolding code_calls
calls-IsNewest [] now r h = h
calls-IsNewest ((wait, c) ∷ cs) now r h =
    calls-IsNewest cs (now + wait) (code_call (now + wait) c r)
      (call-IsNewest (now + wait) c r (wait-IsNewest now wait r h))

-- From an empty store, after any issues, exchanges and cooldowns at any times, two codes that would
-- both be taken for the same account are the same code: a new code revokes the one before it.
pub newest_code_only :
    (cs : List (ℕ × CodeCall)) (now owner c c' : ℕ)
    → (take_code (code_calls cs (now, empty_redis)).0 c (code_calls cs (now, empty_redis)).1).0
      ≡ some owner
    → (take_code (code_calls cs (now, empty_redis)).0 c' (code_calls cs (now, empty_redis)).1).0
      ≡ some owner
    → c ≡ c'
unfolding take_code IsNewest
newest_code_only cs now owner c c' h h' =
    one (code_calls cs (now, empty_redis)).0 (code_calls cs (now, empty_redis)).1
      (calls-IsNewest cs now empty_redis (λ c e f le. cc)) h h'
  where
    one :
        (now : ℕ) (r : Redis)
        → IsNewest now r
        → get now r.codes c ≡ some owner
        → get now r.codes c' ≡ some owner
        → c ≡ c'
    one now r n h h' = elim (Option-cases (r.codes c)) [
      | inl gone ↦ ground (arith, gone, h)
      | inr (e, f) ↦ elim (Option-cases (r.codes c')) [
        | inl gone ↦ ground (arith, gone, h')
        | inr (e', f') ↦
            let l = n c e f (ground (arith, f, h)) in
            let l' = n c' e' f' (ground (arith, f', h')) in ground (arith, l, l', f, f', h, h')
      ]
    ]
