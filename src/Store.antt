-- ===== src/Store.antt =====
-- web/lib/store.gcp.ts: the documents that the store keeps, and the lookups of its transactions.
-- A transaction is one step: a function from the documents to a result and the documents after it.
pub mod Leases
pub mod Limits
pub mod Sources
pub mod Status
pub mod Attempt
pub mod Readiness
mod Tests
use event_recommender.Prelude.{ℕ, Bool, true, false, ◌≡◌, refl, Option, none, some, if◌then◌else◌}
use event_recommender.Prelude.Text.{Text, text_eq, text_eq_refl}
use event_recommender.Prelude.Number.{Number}

pub record Lease : Type 0 where
  pub key : Text
  pub token : Text
  pub expires_at : ℕ

-- { count, expiresAt }
pub record Counter : Type 0 where
  pub count : Number
  pub expires_at : Number

pub data SourceKind : Type 0 where
  active retired quarantined : SourceKind

pub record SourceHead : Type 0 where
  pub url : Text
  pub key : Text
  pub hash : Text
  pub checked_at : Text
  pub events : ℕ
  pub kind : Option SourceKind

-- The documents of one kind, by their paths.
abbrev pub Documents {ℓ} : Type ℓ → Type ℓ
Documents A = Text → Option A

-- tx.set and tx.delete
unfoldable pub set_at {ℓ} : {A : Type ℓ} → Documents A → Text → Option A → Documents A
set_at docs path doc p = if text_eq p path then doc else docs p

pub set_at-same {ℓ} :
    {A : Type ℓ} (docs : Documents A) (path : Text) (doc : Option A)
    → set_at docs path doc path ≡ doc
unfolding set_at
set_at-same docs path doc = rw (text_eq_refl path) refl

pub set_at-other {ℓ} :
    {A : Type ℓ} (docs : Documents A) (path p : Text) (doc : Option A)
    → text_eq p path ≡ false
    → set_at docs path doc p ≡ docs p
unfolding set_at
set_at-other docs path p doc h = rw h refl
