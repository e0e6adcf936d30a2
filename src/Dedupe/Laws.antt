-- ===== src/Dedupe/Laws.antt =====
-- internal/policy/dedupe.go: what `AddIfNew` promises.
use herdr_pal.Prelude.{
  ℕ, ◌+◌, ◌≡◌, ◌≢◌, ◌<◌, ◌≤◌, ◌↔◌, refl, ◌⊎◌, ap, List, [], ◌∷◌, ◌++◌, map, true, false, none, some,
  arith, length, keep, All, All-weaken, All-keep, All-append, Bool-cases, Option-cases, inl, inr,
  ◌==◌, ==_cases, nat_eq, ltb, if◌then◌else◌,
}
use herdr_pal.Prelude.Maps.{Map, IsMap, lookup, insert, delete}
use herdr_pal.Prelude.Text.{Text, text_eq, trim_space}
use herdr_pal.Dedupe.{Deduper, logical_now, remove_expired, remove_oldest, register_key, add_if_new}

abbrev pub keys : Map Text ℕ → List Text
keys = map (λ e. e.0)

-- Expiries do not fall along the list.
abbrev pub Rising : Map Text ℕ → Type 0
Rising [] = Unit
Rising (e ∷ m) = All (λ f. e.1 ≤ f.1) m × Rising m

pub record IsWell (d : Deduper) : Type 0 where
  pub ordered : keys d.entries ≡ d.order
  pub distinct : IsMap d.entries
  pub rising : Rising d.entries
  pub ahead : All (λ e. e.1 ≤ d.last_now + d.ttl) d.entries
  pub bounded : length d.entries ≤ d.capacity
  pub room : 0 < d.capacity
  pub started : d.has_now ≡ false → d.last_now ≡ 0

-- The entries that have not run out.
abbrev pub fresh : ℕ → Map Text ℕ → Map Text ℕ
fresh now = keep (λ e. ltb now e.1)

lookup-none : (k : Text) (m : Map Text ℕ) → All (λ e. k ≢ e.0) m → lookup k m ≡ none
unfolding lookup
lookup-none k [] a = refl
lookup-none k ((j, t) ∷ m) a = ground (arith, a.0, lookup-none k m a.1)

delete-none : (k : Text) (m : Map Text ℕ) → All (λ e. k ≢ e.0) m → delete k m ≡ m
unfolding delete
delete-none k [] a = refl
delete-none k ((j, t) ∷ m) a = ground (arith, a.0, delete-none k m a.1)

pub insert-new :
    (k : Text) (t : ℕ) (m : Map Text ℕ) → lookup k m ≡ none → insert k t m ≡ m ++ (k, t) ∷ []
unfolding insert lookup
insert-new k t [] h = refl
insert-new k t ((j, w) ∷ m) h = ground (arith, insert-new k t m)

fresh-All : (now : ℕ) (m : Map Text ℕ) → All (λ e. now < e.1) m → fresh now m ≡ m
fresh-All now [] a = refl
fresh-All now ((k, t) ∷ m) a = ground (arith, a.0, fresh-All now m a.1)

delete-first :
    (k : Text) (t : ℕ) (m : Map Text ℕ) → All (λ e. k ≢ e.0) m → delete k ((k, t) ∷ m) ≡ m
unfolding delete
delete-first k t m a = ground (arith, delete-none k m a)

lookup-first : (k : Text) (t : ℕ) (m : Map Text ℕ) → lookup k ((k, t) ∷ m) ≡ some t
unfolding lookup
lookup-first k t m = ground arith

-- The sweep from the front drops exactly the entries that have run out.
remove_expired-eq-fresh :
    (now : ℕ) (m : Map Text ℕ)
    → IsMap m
    → Rising m
    → remove_expired now m (keys m) ≡ (fresh now m, keys (fresh now m))
unfolding remove_expired
remove_expired-eq-fresh now [] d r = refl
remove_expired-eq-fresh now ((k, t) ∷ m) d r = elim (Bool-cases (ltb now t)) [
  | inl live ↦ ground (
    arith,
    live,
    lookup-first k t m,
    fresh-All now m
        (All-weaken (λ e. t ≤ e.1) (λ e. now < e.1) (λ e le. ground (arith, live, le)) m r.0),
  )
  | inr over ↦ ground (
    arith,
    over,
    lookup-first k t m,
    delete-first k t m d.0,
    remove_expired-eq-fresh now m d.1 r.1,
  )
]

-- Parts of the invariant that a filter, a cut at the front and a new entry keep.
pub IsMap-fresh : (now : ℕ) (m : Map Text ℕ) → IsMap m → IsMap (fresh now m)
IsMap-fresh now [] d = tt
IsMap-fresh now ((k, t) ∷ m) d = elim (Bool-cases (ltb now t)) [
  | inl e ↦ rw e (All-keep (λ f. k ≢ f.0) _ m d.0, IsMap-fresh now m d.1)
  | inr e ↦ rw e (IsMap-fresh now m d.1)
]

pub Rising-fresh : (now : ℕ) (m : Map Text ℕ) → Rising m → Rising (fresh now m)
Rising-fresh now [] r = tt
Rising-fresh now ((k, t) ∷ m) r = elim (Bool-cases (ltb now t)) [
  | inl e ↦ rw e (All-keep (λ f. t ≤ f.1) _ m r.0, Rising-fresh now m r.1)
  | inr e ↦ rw e (Rising-fresh now m r.1)
]

pub Rising-append :
    (k : Text) (t : ℕ) (m : Map Text ℕ)
    → Rising m
    → All (λ e. e.1 ≤ t) m
    → Rising (m ++ (k, t) ∷ [])
Rising-append k t [] r a = (tt, tt)
Rising-append k t (e ∷ m) r a =
    (All-append (λ f. e.1 ≤ f.1) m _ r.0 (a.0, tt), Rising-append k t m r.1 a.1)

keys-append : (m n : Map Text ℕ) → keys (m ++ n) ≡ keys m ++ keys n
keys-append [] n = refl
keys-append (e ∷ m) n = ap (◌∷◌ e.0) (keys-append m n)

-- What is kept when `key` is to be added: the entries that have not run out, without the oldest if
-- they fill the deduper.
abbrev pub front : Map Text ℕ → Map Text ℕ
front [] = []
front (e ∷ m) = m

remove_oldest-eq-front :
    (m : Map Text ℕ) → IsMap m → remove_oldest m (keys m) ≡ (front m, keys (front m))
unfolding remove_oldest
remove_oldest-eq-front [] d = refl
remove_oldest-eq-front ((k, t) ∷ m) d = ground (arith, delete-first k t m d.0)

-- The abstract call: a list of keys with their expiries, oldest first.
abbrev pub make_room : ℕ → Map Text ℕ → Map Text ℕ
make_room capacity m = if length m == capacity then front m else m

abbrev pub clock : Deduper → ℕ → ℕ
clock d raw = (logical_now d raw).last_now

lookup-front : (key : Text) (m : Map Text ℕ) → lookup key m ≡ none → lookup key (front m) ≡ none
unfolding lookup
lookup-front key [] e = e
lookup-front key ((k, t) ∷ m) e = ground arith

pub lookup-make_room :
    (n : ℕ) (key : Text) (m : Map Text ℕ) → lookup key m ≡ none → lookup key (make_room n m) ≡ none
lookup-make_room n key m e = elim (Bool-cases (length m == n)) [
  | inl full ↦ rw full (lookup-front key m e)
  | inr room ↦ rw room e
]

pub blank_refused :
    (d : Deduper) (raw : ℕ) (key : Text) → trim_space key ≡ [] → (add_if_new d raw key).1 ≡ false
unfolding add_if_new
blank_refused d raw key e = ground (arith, e)

module _ (d : Deduper) (raw : ℕ) (key : Text) (h : IsWell d) where
  abbrev live : Map Text ℕ
  live = fresh (clock d raw) d.entries

  pub logical_now-same :
      ((logical_now d raw).entries ≡ d.entries)
      × ((logical_now d raw).order ≡ d.order)
      × ((logical_now d raw).capacity ≡ d.capacity)
      × ((logical_now d raw).ttl ≡ d.ttl)
      × (d.last_now ≤ clock d raw ⊎ (d.has_now ≡ false))
  unfolding logical_now
  logical_now-same = ground arith

  swept :
      remove_expired (clock d raw) (logical_now d raw).entries (logical_now d raw).order
      ≡ (live, keys live)
  swept = ground (
    arith,
    logical_now-same,
    h.ordered,
    remove_expired-eq-fresh (clock d raw) d.entries h.distinct h.rising,
  )

  -- A call for a key that is on record: it is refused, and the expired entries go.
  pub add_if_new_old :
      (t : ℕ)
      → trim_space key ≢ []
      → lookup key live ≡ some t
      → add_if_new d raw key
        ≡ (record (logical_now d raw) { entries = live; order = keys live }, false)
  unfolding add_if_new
  add_if_new_old t b e = ground (arith, swept, b, e)

  -- A call for a key that is not: it is accepted and put last, in the place of the oldest if the
  -- deduper is full.
  pub add_if_new_new :
      trim_space key ≢ []
      → lookup key live ≡ none
      → add_if_new d raw key ≡ (
        record (logical_now d raw) {
          entries = make_room d.capacity live ++ (key, clock d raw + d.ttl) ∷ [];
          order = keys (make_room d.capacity live ++ (key, clock d raw + d.ttl) ∷ []);
        },
        true,
      )
  unfolding add_if_new register_key
  add_if_new_new b e = ground (
    arith,
    swept,
    b,
    e,
    logical_now-same,
    remove_oldest-eq-front live (IsMap-fresh (clock d raw) d.entries h.distinct),
    insert-new key (clock d raw + d.ttl) (make_room d.capacity live)
        (lookup-make_room d.capacity key live e),
    keys-append (make_room d.capacity live) ((key, clock d raw + d.ttl) ∷ []),
  )

  -- In a well-formed deduper, `AddIfNew` accepts a key exactly when it is not blank and no entry
  -- that has not run out has it.
  pub add_if_new_iff :
      ((add_if_new d raw key).1 ≡ true)
      ↔ ((trim_space key ≢ []) × (lookup key (fresh (clock d raw) d.entries) ≡ none))
  add_if_new_iff = (accepted, λ e. ap (λ r. r.1) (add_if_new_new e.0 e.1))
    where
      blank : trim_space key ≡ [] → (add_if_new d raw key).1 ≡ false
      blank e = blank_refused d raw key e

      accepted : (add_if_new d raw key).1 ≡ true → (trim_space key ≢ []) × (lookup key live ≡ none)
      accepted e = elim (==_cases (trim_space key) []) [
        | inl (b, _) ↦ absurd (ground (arith, e, blank b))
        | inr (b, _) ↦ elim (Option-cases (lookup key live)) [
          | inl n ↦ (b, n)
          | inr (t, o) ↦ absurd (ground (arith, e, add_if_new_old t b o))
        ]
      ]
