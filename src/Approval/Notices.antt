-- ===== src/Approval/Notices.antt =====
-- internal/server/registration_approval.go: notices go round the administrators.
use herdr_pal.Prelude.{
  ℕ, zero, suc, ◌+◌, ◌-◌, ◌%◌, ◌≡◌, ◌≤◌, ◌<◌, refl, List, [], ◌∷◌, ◌++◌, false, Option, some, ◌==◌,
  nat_eq, length, get_elem?, take, drop, arith, sym, ap, ◌∙◌, Bool-cases, ltb, ltb→lt, inl, inr,
}
use herdr_pal.Prelude.Text.{Text, text_eq}
use herdr_pal.Approval.{Coordinator, notify_pending}

-- Those who are sent the notices of the next requests, in their order.
unfoldable pub notified : ℕ → Coordinator → List (Option Text)
notified zero c = []
notified (suc n) c = (notify_pending c).1 ∷ notified n (notify_pending c).0

abbrev pub somes : List Text → List (Option Text)
somes [] = []
somes (x ∷ xs) = some x ∷ somes xs

drop_step :
    (xs : List Text) (i : ℕ)
    → i < length xs
    → (x : Text) × (get_elem? xs i ≡ some x) × (drop i xs ≡ x ∷ drop (suc i) xs)
drop_step [] i lt = absurd (omega (arith, lt))
drop_step (x ∷ xs) zero lt = (x, refl, refl)
drop_step (x ∷ xs) (suc i) lt = drop_step xs i (omega (arith, lt))

drop_all : (xs : List Text) → drop (length xs) xs ≡ []
drop_all [] = refl
drop_all (x ∷ xs) = drop_all xs

abbrev at_turn : Coordinator → ℕ → Coordinator
at_turn c i = record c { next_admin = i }

-- A notice before the last administrator's turn, and one at it.
notify_next :
    (c : Coordinator) (i : ℕ) (x : Text)
    → get_elem? c.admin_ids i ≡ some x
    → suc i < length c.admin_ids
    → notify_pending (at_turn c i) ≡ (at_turn c (suc i), some x)
unfolding notify_pending
notify_next c i x e lt =
    let next : (i + 1) % length c.admin_ids ≡ suc i = grind (arith, lt) in
    let some_admin : (length c.admin_ids == 0) ≡ false = ground (arith, lt) in
    rw (some_admin, next, e) refl

notify_last :
    (c : Coordinator) (i : ℕ) (x : Text)
    → get_elem? c.admin_ids i ≡ some x
    → suc i ≡ length c.admin_ids
    → notify_pending (at_turn c i) ≡ (at_turn c 0, some x)
unfolding notify_pending
notify_last c i x e lt =
    let next : (i + 1) % length c.admin_ids ≡ 0 = grind (arith, lt) in
    let some_admin : (length c.admin_ids == 0) ≡ false = ground (arith, lt) in
    rw (some_admin, next, e) refl

-- Up to the end of the list of administrators.
notified_up :
    (j : ℕ) (c : Coordinator) (i : ℕ)
    → i + j ≤ length c.admin_ids
    → notified j (at_turn c i) ≡ somes (take j (drop i c.admin_ids))
unfolding notified
notified_up zero c i le = refl
notified_up (suc j) c i le =
    let (x, at, rest) = drop_step c.admin_ids i (omega (arith, le)) in
    elim (Bool-cases (ltb (suc i) (length c.admin_ids))) [
      | inl y ↦
          rw (notify_next c i x at (ltb→lt _ _ y), rest)
            (ap (◌∷◌ (some x)) (notified_up j c (suc i) (omega (arith, le))))
      | inr y ↦
          let last : suc i ≡ length c.admin_ids = ground (arith, y, le) in
          let none_left : j ≡ 0 = omega (arith, le, last) in
          rw (notify_last c i x at last, rest, none_left) refl
    ]

-- Past the end, it is the first one's turn.
notified_over :
    (k j : ℕ) (c : Coordinator) (i : ℕ)
    → suc (i + k) ≡ length c.admin_ids
    → notified (suc (k + j)) (at_turn c i) ≡ somes (drop i c.admin_ids) ++ notified j (at_turn c 0)
unfolding notified
notified_over zero j c i e =
    let (x, at, rest) = drop_step c.admin_ids i (omega (arith, e)) in
    let last : suc i ≡ length c.admin_ids = omega (arith, e) in
    let end : drop (suc i) c.admin_ids ≡ [] =
      ap (λ n. drop n c.admin_ids) last ∙ drop_all c.admin_ids in
    let same : 0 + j ≡ j = omega arith in rw (notify_last c i x at last, rest, end, same) refl
notified_over (suc k) j c i e =
    let (x, at, rest) = drop_step c.admin_ids i (omega (arith, e)) in
    let next : suc k + j ≡ suc (k + j) = omega arith in
    rw (notify_next c i x at (omega (arith, e)), rest, next)
      (ap (◌∷◌ (some x)) (notified_over k j c (suc i) (omega (arith, e))))

somes-append : (xs ys : List Text) → somes (xs ++ ys) ≡ somes xs ++ somes ys
somes-append [] ys = refl
somes-append (x ∷ xs) ys = ap (◌∷◌ (some x)) (somes-append xs ys)

-- As many notices in a row as there are administrators go to each of them once, in the order of the
-- configuration, from the one whose turn it is round to the one before.
pub notified_round :
    (c : Coordinator)
    → c.next_admin < length c.admin_ids
    → notified (length c.admin_ids) c
      ≡ somes (drop c.next_admin c.admin_ids ++ take c.next_admin c.admin_ids)
notified_round c lt =
    let i = c.next_admin in
    let all_of : length c.admin_ids ≡ suc ((length c.admin_ids - suc i) + i) = omega (arith, lt) in
    ap (λ n. notified n c) all_of
    ∙ notified_over (length c.admin_ids - suc i) i c i (omega (arith, lt))
    ∙ ap (◌++◌ (somes (drop i c.admin_ids))) (notified_up i c 0 (omega (arith, lt)))
    ∙ sym (somes-append (drop i c.admin_ids) (take i c.admin_ids))
