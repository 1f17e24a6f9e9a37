-- ===== src/Store/Sources/Newest.antt =====
-- web/lib/store.gcp.ts, `importPages`: a source never goes back to an older page.
use event_recommender.Prelude.{
  ℕ, ◌+◌, ◌≡◌, refl, subst, ◌∙◌, ◌⊎◌, inl, inr, leb, Bool, true, false, ◌&&◌, ◌||◌, not, Option,
  none, some, List, [], ◌∷◌, Result, ok, err, guard, ◌>>◌, >>=-eq-ok, guard-eq-ok, ok-injective,
  Bool-cases, length, arith, is_some, every, String, if◌then◌else◌,
}
use event_recommender.Prelude.Text.{
  Text, codes, text_eq, text_le, text_le_refl, text_le_trans, text_le_total, eq_of_text_eq,
}
use event_recommender.Plan.Validate.{truthy, text_or_empty}
use event_recommender.Store.{Lease, SourceHead, retired, quarantined, set_at-same, set_at-other}
use event_recommender.Store.Leases.{live_lease, require_lease_kind}
use event_recommender.Store.Sources.{
  SourcePage, PageEvent, PageTimes, Control, Import, earliest, newest, source_page_times,
  empty_page_times, times_of, from_page, is_source_quarantine_reason, checked_times, store_page,
  head_of, is_outdated, after_lease, commit_page, import_page, go_on, import_each, import_pages,
}

-- The head of a source is kept, or replaced by one that was checked no earlier.
abbrev pub Advances : Option SourceHead → Option SourceHead → Type 0
Advances none after = Unit
Advances (some head) none = ⊥
Advances (some head) (some next) = text_le head.checked_at next.checked_at ≡ true

pub Advances-refl : (h : Option SourceHead) → Advances h h
Advances-refl none = tt
Advances-refl (some head) = text_le_refl head.checked_at

Advances-trans : (a b c : Option SourceHead) → Advances a b → Advances b c → Advances a c
Advances-trans none b c h k = tt
Advances-trans (some a) (some b) (some c) h k =
    text_le_trans a.checked_at b.checked_at c.checked_at h k
Advances-trans (some a) none c h k = elim h [ ]
Advances-trans (some a) (some b) none h k = elim k [ ]

text_le_other : (s t : Text) → text_le s t ≡ false → text_le t s ≡ true
unfolding text_le
text_le_other [] t h = cc
text_le_other (c ∷ s) [] h = refl
text_le_other (c ∷ s) (d ∷ t) h = ground (arith, text_le_other s t)

earliest_le : (t : Text) (es : List PageEvent) → text_le (earliest t es) t ≡ true
earliest_le t [] = text_le_refl t
earliest_le t (e ∷ es) = elim (Bool-cases (text_le t e.checked_at)) [
  | inl q ↦ rw q (earliest_le t es)
  | inr q ↦ rw q (
      text_le_trans _ e.checked_at t (earliest_le e.checked_at es) (text_le_other t e.checked_at q))
]

newest_ge : (t : Text) (es : List PageEvent) → text_le t (newest t es) ≡ true
newest_ge t [] = text_le_refl t
newest_ge t (e ∷ es) = elim (Bool-cases (text_le t e.checked_at)) [
  | inl q ↦ rw q (text_le_trans t e.checked_at _ q (newest_ge e.checked_at es))
  | inr q ↦ rw q (newest_ge t es)
]

past_guards :
    (a b c d : Bool) (m n o p : String) (given times : PageTimes)
    → (guard a m >> guard b n >> guard c o >> guard d p >> ok given) ≡ ok times
    → given ≡ times
past_guards true true true true m n o p given times h = ok-injective h
past_guards false b c d m n o p given times h = cc
past_guards true false c d m n o p given times h = cc
past_guards true true false d m n o p given times h = cc
past_guards true true true false m n o p given times h = cc

empty_times_ordered :
    (is_timestamp : Text → Bool) (page : SourcePage) (times : PageTimes)
    → empty_page_times is_timestamp page ≡ ok times
    → text_le times.checked times.latest ≡ true
unfolding empty_page_times
empty_times_ordered is_timestamp page times h =
    let is_retired = is_some page.retired_at in
    let is_quarantined = is_some page.quarantined_at || is_some page.quarantine_reason in
    let value = text_or_empty (if is_retired then page.retired_at else page.quarantined_at) in
    let same =
      past_guards (is_retired || is_quarantined) (not (is_retired && is_quarantined))
        (not is_quarantined || is_source_quarantine_reason page.quarantine_reason)
        (is_timestamp value) _ _ _ _
        (record {
          checked = value;
          latest = value;
          kind = if is_retired then retired else quarantined;
        })
        times h in
    subst (λ t. text_le t.checked t.latest ≡ true) same (text_le_refl value)

list_times_ordered :
    (is_timestamp : Text → Bool) (page : SourcePage) (events : List PageEvent) (times : PageTimes)
    → times_of is_timestamp page events ≡ ok times
    → text_le times.checked times.latest ≡ true
list_times_ordered is_timestamp page [] times h = empty_times_ordered is_timestamp page times h
list_times_ordered is_timestamp page (e ∷ es) times h =
    let (_, g) =
      guard-eq-ok
        (not (
          is_some page.retired_at || is_some page.quarantined_at || is_some page.quarantine_reason))
        _ _ h in
    subst (λ t. text_le t.checked t.latest ≡ true) (ok-injective g)
      (text_le_trans _ e.checked_at _ (earliest_le e.checked_at es) (newest_ge e.checked_at es))

-- The times of a page are in order.
times_ordered :
    (is_timestamp : Text → Bool) (page : SourcePage) (times : PageTimes)
    → source_page_times is_timestamp page ≡ ok times
    → text_le times.checked times.latest ≡ true
unfolding source_page_times
times_ordered is_timestamp page times h =
    let (_, g) =
      guard-eq-ok (every (from_page page.url) page.events) _
        (times_of is_timestamp page page.events) h in
    list_times_ordered is_timestamp page page.events times g

empty_text : (t : Text) → truthy (some t) ≡ false → t ≡ []
empty_text [] h = refl
empty_text (c ∷ t) h = cc

not_outdated :
    (found : Option SourceHead) (checked : Text) (head : SourceHead)
    → text_le checked head.checked_at ≡ true
    → is_outdated found checked head.events ≡ false
    → Advances found (some head)
unfolding is_outdated text_le
not_outdated none checked head h q = tt
not_outdated (some old) checked head h q = elim (Bool-cases (truthy (some old.checked_at))) [
  | inr empty ↦ rw (empty_text old.checked_at empty) refl
  | inl full ↦
      text_le_trans old.checked_at checked head.checked_at
        (text_le_total checked old.checked_at (ground arith)) h
]

commit-Advances :
    (c : Control) (time : ℕ) (lease : Lease) (lock_path path checked p : Text) (head : SourceHead)
    → text_le checked head.checked_at ≡ true
    → Advances (c.sources p) ((commit_page c time lease lock_path path checked head).1.sources p)
unfolding commit_page
commit-Advances c time lease lock_path path checked p head h =
    elim (live_lease c.leases lease lock_path time)
      as (λ r. Advances (c.sources p) ((after_lease r c path checked head).1.sources p)) [
        | err e ↦ Advances-refl (c.sources p)
        | ok _ ↦ elim (Bool-cases (is_outdated (c.sources path) checked head.events)) [
          | inl q ↦ rw q (Advances-refl (c.sources p))
          | inr q ↦ rw q (elim (Bool-cases (text_eq p path)) [
            | inl same ↦ rw (eq_of_text_eq p path same) (
                rw (set_at-same c.sources path (some head))
                  (not_outdated (c.sources path) checked head h q))
            | inr other ↦
                rw (set_at-other c.sources path p (some head) other) (Advances-refl (c.sources p))
          ])
        ]
      ]

Result-cases {ℓ} :
    {A : Type ℓ} (r : Result A) → ((e : String) × (r ≡ err e)) ⊎ ((a : A) × (r ≡ ok a))
Result-cases (err e) = inl (e, refl)
Result-cases (ok a) = inr (a, refl)

module _ (im : Import) (namespace : Text) (lease : Lease) where
  -- What other processes commit while a page is uploaded sends no source back.
  abbrev pub Orderly : Type 0
  Orderly =
      (page : SourcePage) (c : Control) (p : Text)
      → Advances (c.sources p) ((im.during page c).sources p)

  store-Advances :
      Orderly
      → (c : Control) (path p : Text) (page : SourcePage) (times : PageTimes)
      → text_le times.checked times.latest ≡ true
      → Advances (c.sources p) ((store_page im namespace lease c path page times).1.sources p)
  store-Advances orderly c path p page times h =
      elim (Bool-cases (is_outdated (c.sources path) times.checked (length page.events))) [
        | inl q ↦ rw q (Advances-refl (c.sources p))
        | inr q ↦ rw q (
            Advances-trans _ ((im.during page c).sources p) _ (orderly page c p) (
              commit-Advances (im.during page c) (im.clock page) lease (im.digest lease.key) path
                times.checked p (head_of im namespace lease page times) h))
      ]

  checked_times_ordered :
      (page : SourcePage) (times : PageTimes)
      → checked_times im namespace lease page ≡ ok times
      → text_le times.checked times.latest ≡ true
  checked_times_ordered page times h =
      let (found, g, k) = >>=-eq-ok (source_page_times im.is_timestamp page) _ h in
      let (_, same) =
        guard-eq-ok (leb (im.byte_count (im.stringify page)) 4_000_000) _ (ok found) k in
      times_ordered im.is_timestamp page times (g ∙ same)

  import-Advances :
      Orderly
      → (c : Control) (page : SourcePage) (p : Text)
      → Advances (c.sources p) ((import_page im namespace lease c page).1.sources p)
  unfolding import_page
  import-Advances orderly c page p = elim (Result-cases (checked_times im namespace lease page)) [
    | inl (e, q) ↦ rw q (Advances-refl (c.sources p))
    | inr (times, q) ↦ rw q (
        store-Advances orderly c (im.digest page.url) p page times
          (checked_times_ordered page times q))
  ]

  -- What holds after a page that ends the import, and after what follows it, holds at the end.
  go_on-Advances :
      (start : Option SourceHead) (p : Text) (changed unchanged : Result (ℕ × ℕ) × Control)
      (r : Result Bool × Control)
      → Advances start (changed.1.sources p)
      → Advances start (unchanged.1.sources p)
      → Advances start (r.1.sources p)
      → Advances start ((go_on im namespace lease changed unchanged r).1.sources p)
  go_on-Advances start p changed unchanged (err e, c) h k l = l
  go_on-Advances start p changed unchanged (ok true, c) h k l = h
  go_on-Advances start p changed unchanged (ok false, c) h k l = k

  each-Advances :
      Orderly
      → (imported skipped : ℕ) (c : Control) (pages : List SourcePage) (p : Text)
      → Advances
          (c.sources p)
          ((import_each im namespace lease imported skipped c pages).1.sources p)
  unfolding import_each
  each-Advances orderly imported skipped c [] p = Advances-refl (c.sources p)
  each-Advances orderly imported skipped c (page ∷ pages) p =
      let next = (import_page im namespace lease c page).1 in
      let first = import-Advances orderly c page p in
      go_on-Advances (c.sources p) p _ _ (import_page im namespace lease c page)
        (Advances-trans _ (next.sources p) _ first
          (each-Advances orderly (imported + length page.events) skipped next pages p))
        (Advances-trans _ (next.sources p) _ first
          (each-Advances orderly imported (skipped + 1) next pages p))
        first

  -- An import never sends a source back to a page that was checked earlier, and never drops a
  -- source, wherever it stops and whatever others commit while it uploads, if they do neither.
  pub import_pages-Advances :
      Orderly
      → (c : Control) (pages : List SourcePage) (p : Text)
      → Advances (c.sources p) ((import_pages im namespace lease c pages).1.sources p)
  unfolding import_pages
  import_pages-Advances orderly c pages p =
      elim (Result-cases (require_lease_kind lease (codes "sync_lock" ∷ []))) [
        | inl (e, q) ↦ rw q (Advances-refl (c.sources p))
        | inr (_, q) ↦ rw q (each-Advances orderly 0 0 c pages p)
      ]
