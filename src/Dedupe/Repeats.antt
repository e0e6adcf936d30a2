-- ===== src/Dedupe/Repeats.antt =====
-- internal/policy/dedupe.go: a message that was accepted is refused when it is repeated.
use herdr_pal.Prelude.{
  ℕ, ◌+◌, ◌≡◌, ◌<◌, ◌≤◌, refl, sym, subst, ap, List, [], ◌∷◌, ◌++◌, Bool, true, false, some, arith,
  length, length-append, length-keep-le, Bool-cases, Option-cases, inl, inr, ◌==◌, ==_cases, nat_eq,
  ltb,
}
use mathlib.Core.List.{append_assoc}
use herdr_pal.Prelude.Maps.{Map, lookup}
use herdr_pal.Prelude.Text.{Text, text_eq, trim_space}
use herdr_pal.Dedupe.{Deduper, add_if_new}
use herdr_pal.Dedupe.Laws.{
  IsWell, fresh, make_room, clock, logical_now-same, add_if_new_old, add_if_new_new, add_if_new_iff,
}
use herdr_pal.Dedupe.WellFormed.{clock-le, blank_same, add_if_new-IsWell}

unfoldable pub run : Deduper → List (ℕ × Text) → Deduper
run d [] = d
run d ((raw, key) ∷ calls) = run (add_if_new d raw key).0 calls

-- The key is on record until `t`, with at most `n` newer keys.
abbrev Holds : Text → ℕ → ℕ → Map Text ℕ → Type 0
Holds key t n m =
    (before after : Map Text ℕ) × (m ≡ before ++ (key, t) ∷ after) × (length after ≤ n)

fresh-append : (now : ℕ) (m n : Map Text ℕ) → fresh now (m ++ n) ≡ fresh now m ++ fresh now n
fresh-append now [] n = refl
fresh-append now (e ∷ m) n = ground (arith, fresh-append now m n)

Holds-fresh :
    (key : Text) (t n now : ℕ) (m : Map Text ℕ)
    → now < t
    → Holds key t n m
    → Holds key t n (fresh now m)
Holds-fresh key t n now m lt (before, after, e, le) = (
  fresh now before,
  fresh now after,
  ground (arith, e, fresh-append now before ((key, t) ∷ after)),
  omega (arith, length-keep-le {0} (λ f. ltb now f.1) after),
)

Holds-make_room :
    (key : Text) (t n capacity : ℕ) (m : Map Text ℕ)
    → n + 1 < capacity
    → Holds key t n m
    → Holds key t n (make_room capacity m)
Holds-make_room key t n capacity m lt ([], after, e, le) = ([], after, ground (arith, e), le)
Holds-make_room key t n capacity m lt (x ∷ before, after, e, le) =
    elim (Bool-cases (length m == capacity)) [
      | inl full ↦ (before, after, ground (arith, e, full), le)
      | inr free ↦ (x ∷ before, after, ground (arith, e, free), le)
    ]

Holds-append :
    (key other : Text) (t s n : ℕ) (m : Map Text ℕ)
    → Holds key t n m
    → Holds key t (n + 1) (m ++ (other, s) ∷ [])
Holds-append key other t s n m (before, after, e, le) = (
  before,
  after ++ (other, s) ∷ [],
  rw e (append_assoc before ((key, t) ∷ after) ((other, s) ∷ [])),
  omega (arith, length-append {0} after ((other, s) ∷ [])),
)

lookup-Holds :
    (key : Text) (t n : ℕ) (m : Map Text ℕ) → Holds key t n m → (s : ℕ) × (lookup key m ≡ some s)
unfolding lookup
lookup-Holds key t n m (before, after, e, le) = rw e (found before)
  where
    found : (b : Map Text ℕ) → (s : ℕ) × (lookup key (b ++ (key, t) ∷ after) ≡ some s)
    found [] = (t, ground arith)
    found ((j, w) ∷ b) = elim (Bool-cases (j == key)) [
      | inl hit ↦ (w, rw hit refl)
      | inr miss ↦ rw miss (found b)
    ]

-- What one call does to the clock, the capacity and a key on record.
module _ (d : Deduper) (raw : ℕ) (other : Text) (h : IsWell d) where
  abbrev Called : Deduper → Type 0
  Called after_call =
      (after_call.capacity ≡ d.capacity)
      × (d.last_now ≤ after_call.last_now)
      × ((key : Text) (t n : ℕ)
          → n + 1 < d.capacity
          → after_call.last_now < t
          → Holds key t n d.entries
          → Holds key t (n + 1) after_call.entries)

  wider : (key : Text) (t n : ℕ) (m : Map Text ℕ) → Holds key t n m → Holds key t (n + 1) m
  wider key t n m (before, after, e, le) = (before, after, e, omega (arith, le))

  Called-at :
      (r : Deduper × Bool)
      → add_if_new d raw other ≡ r
      → Called r.0
      → Called (add_if_new d raw other).0
  Called-at r e c = subst Called (sym (ap (λ p. p.0) e)) c

  called : Called (add_if_new d raw other).0
  called =
      let (_, _, c, _, _) = logical_now-same d raw other h in
      elim (==_cases (trim_space other) []) [
        | inl (b, _) ↦
            Called-at _ (blank_same d raw other b)
              (refl, omega arith, λ key t n r lt k. wider key t n d.entries k)
        | inr (b, _) ↦ elim (Option-cases (lookup other (fresh (clock d raw) d.entries))) [
          | inr (s, old) ↦ Called-at _ (add_if_new_old d raw other h s b old) (
            c,
            clock-le d raw other h,
            λ key t n r lt k. wider key t n _ (Holds-fresh key t n (clock d raw) d.entries lt k),
          )
          | inl free ↦ Called-at _ (add_if_new_new d raw other h b free) (
            c,
            clock-le d raw other h,
            λ key t n r lt k. Holds-append key other t (clock d raw + d.ttl) n _ (
                Holds-make_room key t n d.capacity _ r
                  (Holds-fresh key t n (clock d raw) d.entries lt k)),
          )
        ]
      ]

last_now-run :
    (d : Deduper) (calls : List (ℕ × Text)) → IsWell d → d.last_now ≤ (run d calls).last_now
unfolding run
last_now-run d [] h = omega arith
last_now-run d ((raw, other) ∷ calls) h = omega (
  arith,
  (called d raw other h).1,
  last_now-run (add_if_new d raw other).0 calls (add_if_new-IsWell d raw other h),
)

run-IsWell : (d : Deduper) (calls : List (ℕ × Text)) → IsWell d → IsWell (run d calls)
unfolding run
run-IsWell d [] h = h
run-IsWell d ((raw, other) ∷ calls) h =
    run-IsWell (add_if_new d raw other).0 calls (add_if_new-IsWell d raw other h)

Holds-run :
    (key : Text) (t n : ℕ) (d : Deduper) (calls : List (ℕ × Text))
    → IsWell d
    → n + length calls < d.capacity
    → (run d calls).last_now < t
    → Holds key t n d.entries
    → Holds key t (n + length calls) (run d calls).entries
unfolding run
Holds-run key t n d [] h r lt (before, after, e, le) = (before, after, e, omega (arith, le))
Holds-run key t n d ((raw, other) ∷ calls) h r lt k =
    let d1 = (add_if_new d raw other).0 in
    let h1 = add_if_new-IsWell d raw other h in
    let (c, _, keeps) = called d raw other h in
    let later : d1.last_now < t = omega (arith, last_now-run d1 calls h1, lt) in
    let (before, after, e, le) =
      Holds-run key t (n + 1) d1 calls h1 (omega (arith, c, r)) lt
        (keeps key t n (omega (arith, r)) later k) in
    (before, after, e, omega (arith, le))

-- In a well-formed deduper, a message that was accepted is refused when it comes again, if fewer
-- calls than the capacity came in between and the latest time read is less than the time to live
-- after the latest time read when it was accepted.
pub add_if_new_repeated :
    (d : Deduper) (raw again : ℕ) (key : Text) (calls : List (ℕ × Text))
    → IsWell d
    → (add_if_new d raw key).1 ≡ true
    → length calls < d.capacity
    → clock (run (add_if_new d raw key).0 calls) again < clock d raw + d.ttl
    → (add_if_new (run (add_if_new d raw key).0 calls) again key).1 ≡ false
add_if_new_repeated d raw again key calls h accepted few early =
    let (blank, free) = (add_if_new_iff d raw key h).0 accepted in
    let eq = ap (λ r. r.0) (add_if_new_new d raw key h blank free) in
    let d1 = (add_if_new d raw key).0 in
    let d2 = run d1 calls in
    let h1 = add_if_new-IsWell d raw key h in
    let h2 = run-IsWell d1 calls h1 in
    let (c, _, _) = called d raw key h in
    let held : Holds key (clock d raw + d.ttl) 0 d1.entries =
      subst (λ m. Holds key (clock d raw + d.ttl) 0 m) (sym (ap (λ r. r.entries) eq))
        (make_room d.capacity (fresh (clock d raw) d.entries), [], refl, omega arith) in
    let later : d2.last_now < clock d raw + d.ttl =
      omega (arith, clock-le d2 again key h2, early) in
    let on_record =
      Holds-run key (clock d raw + d.ttl) 0 d1 calls h1 (omega (arith, c, few)) later held in
    let (s, found) =
      lookup-Holds key _ _ _ (Holds-fresh key _ _ (clock d2 again) d2.entries early on_record) in
    elim (Bool-cases (add_if_new d2 again key).1) [
      | inr refused ↦ refused
      | inl taken ↦ absurd (ground (arith, found, ((add_if_new_iff d2 again key h2).0 taken).1))
    ]
