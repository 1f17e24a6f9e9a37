-- ===== src/Store/Leases/Exclusion.antt =====
-- web/lib/store.gcp.ts: a lease that was granted is its holder's alone until it expires or is released.
use event_recommender.Prelude.{
  ℕ, ◌+◌, ◌<◌, ◌≡◌, refl, sym, ◌∙◌, inl, inr, Bool, true, false, ◌&&◌, not, Option, none, some,
  List, [], ◌∷◌, Result, ok, err, guard, ◌>>◌, lt→ltb, Bool-cases, All, arith, if◌then◌else◌,
}
use event_recommender.Prelude.Text.{Text, text_eq, text_eq_refl, eq_of_text_eq}
use event_recommender.Prelude.Distinct.{text_eq_sym}
use event_recommender.Prelude.Number.{Number}
use event_recommender.Store.{Lease, Documents, set_at-other}
use event_recommender.Store.Leases.{
  acquire_lease, release_lease, live_lease, unexpired, is_empty, valid_ttl, granted, whole,
  has_token,
}

-- What any process may ask of the leases, and when.
pub data LeaseCall : Type 0 where
  acquire : (time : ℕ) (token key : Text) (ttl : Number) → LeaseCall
  release : (time : ℕ) (lease : Lease) → LeaseCall

abbrev settle :
    Documents Lease → Result (Option Lease × Documents Lease) → Option Lease × Documents Lease
settle leases (ok answer) = answer
settle leases (err e) = (none, leases)

-- One call: the lease it returns, if any, and the documents after it; a call that throws changes nothing.
unfoldable pub serve :
    (digest : Text → Text) → Documents Lease → LeaseCall → Option Lease × Documents Lease
serve digest leases (acquire time token key ttl) =
    settle leases (acquire_lease digest leases time token key ttl)
serve digest leases (release time lease) = (none, release_lease digest leases lease)

-- The documents after calls in some order, and the leases that they returned for a path.
unfoldable pub after_calls :
    (digest : Text → Text) → Documents Lease → List LeaseCall → Documents Lease
after_calls digest leases [] = leases
after_calls digest leases (c ∷ cs) = after_calls digest (serve digest leases c).1 cs

abbrev at_path : (digest : Text → Text) → Text → Option Lease → List Lease → List Lease
at_path digest path none ls = ls
at_path digest path (some l) ls = if text_eq (digest l.key) path then l ∷ ls else ls

unfoldable pub granted_for :
    (digest : Text → Text) → Text → Documents Lease → List LeaseCall → List Lease
granted_for digest path leases [] = []
granted_for digest path leases (c ∷ cs) =
    let rest = granted_for digest path (serve digest leases c).1 cs in
    at_path digest path (serve digest leases c).0 rest

-- A call that comes before the lease expires and does not release it.
abbrev pub Spares : Lease → LeaseCall → Type 0
Spares l (acquire time token key ttl) = time < l.expires_at
Spares l (release time lease) = text_eq l.token lease.token ≡ false

unexpired-early : (l : Lease) (time : ℕ) → time < l.expires_at → unexpired (some l) time ≡ some l
unfolding unexpired
unexpired-early l time h = rw (lt→ltb time l.expires_at h) refl

-- A lease that is granted for one path leaves the other paths alone.
granted_elsewhere :
    (digest : Text → Text) (leases : Documents Lease) (path : Text) (lease : Lease)
    (found : Option Lease)
    → text_eq path (digest lease.key) ≡ false
    → ((granted leases (digest lease.key) lease found).1 path ≡ leases path)
      × ((ls : List Lease)
          → at_path digest path (granted leases (digest lease.key) lease found).0 ls ≡ ls)
granted_elsewhere digest leases path lease (some held) h = (refl, λ ls. refl)
granted_elsewhere digest leases path lease none h = (
  set_at-other leases (digest lease.key) path (some lease) h,
  λ ls. rw (text_eq_sym (digest lease.key) path ∙ h) refl,
)

release_spares :
    (digest : Text → Text) (leases : Documents Lease) (l lease : Lease)
    → leases (digest l.key) ≡ some l
    → text_eq l.token lease.token ≡ false
    → release_lease digest leases lease (digest l.key) ≡ some l
unfolding release_lease
release_spares digest leases l lease held h =
    elim (Bool-cases (text_eq (digest l.key) (digest lease.key))) [
      | inl same ↦
          let e = eq_of_text_eq (digest l.key) (digest lease.key) same in
          rw (sym e) (rw held (rw h held))
      | inr other ↦ elim (Bool-cases (has_token (leases (digest lease.key)) lease.token)) [
        | inl q ↦ rw q (set_at-other leases (digest lease.key) (digest l.key) none other ∙ held)
        | inr q ↦ rw q held
      ]
    ]

-- A lease that is on its path and has not expired is live.
held_is_live :
    (leases : Documents Lease) (l : Lease) (path : Text) (time : ℕ)
    → leases path ≡ some l
    → time < l.expires_at
    → live_lease leases l path time ≡ ok tt
unfolding live_lease
held_is_live leases l path time held early = rw held (
    rw (text_eq_refl l.key)
      (rw (text_eq_refl l.token) (rw (lt→ltb time l.expires_at early) (ground arith))))

-- The answer to a request for a lease, be the request valid or not.
answer_spares :
    (digest : Text → Text) (leases : Documents Lease) (l : Lease) (time : ℕ) (new : Lease)
    (valid : Bool)
    → leases (digest l.key) ≡ some l
    → time < l.expires_at
    → let answer = settle leases (
        guard valid "Invalid storage lease"
        >> ok (granted leases (digest new.key) new (unexpired (leases (digest new.key)) time))) in
      (answer.1 (digest l.key) ≡ some l)
      × ((ls : List Lease) → at_path digest (digest l.key) answer.0 ls ≡ ls)
answer_spares digest leases l time new false held h = (held, λ ls. refl)
answer_spares digest leases l time new true held h =
    elim (Bool-cases (text_eq (digest l.key) (digest new.key))) [
      | inl same ↦
          rw (sym (eq_of_text_eq (digest l.key) (digest new.key) same))
            (rw held (rw (unexpired-early l time h) (held, λ ls. refl)))
      | inr other ↦
          let (kept, none_granted) =
            granted_elsewhere digest leases (digest l.key) new
              (unexpired (leases (digest new.key)) time) other in
          (kept ∙ held, none_granted)
    ]

serve-Spares :
    (digest : Text → Text) (leases : Documents Lease) (l : Lease) (c : LeaseCall)
    → leases (digest l.key) ≡ some l
    → Spares l c
    → ((serve digest leases c).1 (digest l.key) ≡ some l)
      × ((ls : List Lease) → at_path digest (digest l.key) (serve digest leases c).0 ls ≡ ls)
unfolding serve acquire_lease
serve-Spares digest leases l (acquire time token key ttl) held h =
    let new : Lease = record { key = key; token = token; expires_at = time + whole ttl } in
    answer_spares digest leases l time new (not (is_empty key) && valid_ttl ttl) held h
serve-Spares digest leases l (release time lease) held h =
    (release_spares digest leases l lease held h, λ ls. refl)

-- While a lease is held, and as long as the calls, by whatever process and in whatever order,
-- come before it expires and do not release it, no lease is granted for its path and it stays
-- live, so that its holder's transactions go through.
pub lease_is_exclusive :
    (digest : Text → Text) (leases : Documents Lease) (l : Lease) (calls : List LeaseCall)
    (time : ℕ)
    → leases (digest l.key) ≡ some l
    → All (Spares l) calls
    → time < l.expires_at
    → (granted_for digest (digest l.key) leases calls ≡ [])
      × (live_lease (after_calls digest leases calls) l (digest l.key) time ≡ ok tt)
unfolding after_calls granted_for
lease_is_exclusive digest leases l [] time held h early =
    (refl, held_is_live leases l (digest l.key) time held early)
lease_is_exclusive digest leases l (c ∷ cs) time held (h, hs) early =
    let (kept, nothing) = serve-Spares digest leases l c held h in
    let (none_granted, live) =
      lease_is_exclusive digest (serve digest leases c).1 l cs time kept hs early in
    (nothing _ ∙ none_granted, live)
