-- ===== src/Slots/Distinct.antt =====
-- That the keys of a SlotMap (app/src/lib/viz.ts) do not share their slots.
use mcp_zeromem.Common.{
  zero, suc, ◌-◌, ◌==◌, if_cases, ℕ, ◌+◌, ◌<◌, ◌≤◌, ◌≡◌, ◌≢◌, refl, sym, ◌∙◌, String, ◌⊎◌, inl, inr,
  true, some, List, [], ◌∷◌, ◌++◌, arith, length, get_elem?, leb, str_eq, Bool-cases, Option-cases,
  eq_iff,
}
use mcp_zeromem.Slots.{
  SlotMap, series_slots, get, add_key, add_keys, create, slot, series_color, color, legend,
}

-- The keys are numbered from `n + 1` on, in order.
Numbered : ℕ → List (String × ℕ) → Type 0
Numbered n [] = Unit
Numbered n ((key, number) ∷ rest) = (number ≡ n + 1) × Numbered (n + 1) rest

-- What `get` finds at the first entry or behind it.
get-cases :
    (k : String) (i : String) (x : ℕ) (rest : List (String × ℕ)) (s : ℕ)
    → get k ((i, x) ∷ rest) ≡ some s
    → ((i ≡ k) × (x ≡ s)) ⊎ (get k rest ≡ some s)
unfolding get
get-cases k i x rest s h = elim (Bool-cases (str_eq i k)) [
  | inl e ↦ inl ((eq_iff i k).0 e, ground arith)
  | inr e ↦ inr (ground arith)
]

get-above : (k : String) (t : List (String × ℕ)) (n s : ℕ) → Numbered n t → get k t ≡ some s → n < s
unfolding Numbered get
get-above k [] n s w h = ground arith
get-above k ((i, x) ∷ rest) n s (e, w) h = elim (get-cases k i x rest s h) [
  | inl (p, q) ↦ omega arith
  | inr q ↦ let above = get-above k rest (n + 1) s w q in omega arith
]

get-same :
    (j k : String) (t : List (String × ℕ)) (n s : ℕ)
    → Numbered n t
    → get j t ≡ some s
    → get k t ≡ some s
    → j ≡ k
unfolding Numbered get
get-same j k [] n s w h l = ground arith
get-same j k ((i, x) ∷ rest) n s (e, w) h l = elim (get-cases j i x rest s h) [
  | inl (p, q) ↦ elim (get-cases k i x rest s l) [
    | inl (p2, q2) ↦ sym p ∙ p2
    | inr q2 ↦
        let above = get-above k rest (n + 1) s w q2 in
        let absurd : ⊥ = omega arith in elim absurd [ ]
  ]
  | inr q ↦ elim (get-cases k i x rest s l) [
    | inl (p2, q2) ↦
        let above = get-above j rest (n + 1) s w q in
        let absurd : ⊥ = omega arith in elim absurd [ ]
    | inr q2 ↦ get-same j k rest (n + 1) s w q q2
  ]
]

append-Numbered :
    (t : List (String × ℕ)) (n m : ℕ) (key : String)
    → m ≡ n + length t + 1
    → Numbered n t
    → Numbered n (t ++ (key, m) ∷ [])
unfolding Numbered
append-Numbered [] n m key h w = (omega arith, tt)
append-Numbered ((i, x) ∷ rest) n m key h (e, w) =
    (e, append-Numbered rest (n + 1) m key (omega arith) w)

add_key-Numbered :
    (t : List (String × ℕ)) (key : String) → Numbered 0 t → Numbered 0 (add_key t key)
unfolding add_key
add_key-Numbered t key w = elim (Option-cases (get key t)) [
  | inl e ↦ rw (e, add_key) (append-Numbered t 0 (length t + 1) key (omega arith) w)
  | inr (s, e) ↦ rw (e, add_key) w
]

add_keys-Numbered :
    (keys : List String) (t : List (String × ℕ)) → Numbered 0 t → Numbered 0 (add_keys t keys)
unfolding add_keys
add_keys-Numbered [] t w = w
add_keys-Numbered (key ∷ keys) t w =
    add_keys-Numbered keys (add_key t key) (add_key-Numbered t key w)

-- A key with a slot of its own is one that the map holds under that number.
slot-get : (m : SlotMap) (k : String) → slot m k ≢ 0 → get k m.slots ≡ some (slot m k)
unfolding slot
slot-get m k h = elim (Option-cases (get k m.slots)) [
  | inl e ↦ ground arith
  | inr (s, e) ↦ ground arith
]

get-nil : (j : String) (s : ℕ) → get j [] ≡ some s → ⊥
unfolding get
get-nil j s h = ground arith

-- A number that an entry or one behind it has is at least the entry's.
get-least :
    (j k : String) (x : ℕ) (rest : List (String × ℕ)) (n s : ℕ)
    → Numbered n ((k, x) ∷ rest)
    → get j ((k, x) ∷ rest) ≡ some s
    → x ≤ s
unfolding Numbered
get-least j k x rest n s (p, w) h = elim (get-cases j k x rest s h) [
  | inl (q, r) ↦ omega arith
  | inr q ↦ let above = get-above j rest (n + 1) s w q in omega arith
]

legend_at :
    (j : String) (t : List (String × ℕ)) (n s i : ℕ)
    → Numbered n t
    → get j t ≡ some s
    → s ≤ series_slots
    → s ≡ i + n + 1
    → get_elem? (legend (record { slots = t })) i ≡ some (j, series_color s)
unfolding legend Numbered
legend_at j [] n s i w h l e = elim (get-nil j s h) [ ]
legend_at j ((k, x) ∷ rest) n s zero (p, w) h l e =
    let least = get-least j k x rest n s (p, w) h in
    let kept : leb x series_slots ≡ true = ground arith in
    elim (get-cases j k x rest s h) [
      | inl (q, r) ↦ rw kept (λ t. some (q t, series_color (r t)))
      | inr q ↦
          let above = get-above j rest (n + 1) s w q in
          let absurd : ⊥ = omega arith in elim absurd [ ]
    ]
legend_at j ((k, x) ∷ rest) n s (suc i) (p, w) h l e =
    let least = get-least j k x rest n s (p, w) h in
    let kept : leb x series_slots ≡ true = ground arith in
    elim (get-cases j k x rest s h) [
      | inl (q, r) ↦ let absurd : ⊥ = omega arith in elim absurd [ ]
      | inr q ↦ rw kept (legend_at j rest (n + 1) s i w q l (omega arith))
    ]

slot-bound : (m : SlotMap) (k : String) → slot m k ≤ series_slots
unfolding slot
slot-bound m k = ground arith

color-own : (m : SlotMap) (k : String) → slot m k ≢ 0 → color m k ≡ series_color (slot m k)
unfolding color
color-own m k h =
    if_cases (λ (x : String). x ≡ series_color (slot m k)) (slot m k == 0) _ _
      (λ e. let zero_slot : slot m k ≡ 0 = ground arith in elim (h zero_slot) [ ]) (λ e. refl)

-- Of a map made from any keys, two keys with the same slot are one key, unless the slot is 0, that of "other"; and the
-- entry of the legend in a slot's place, counted from 1, is the key that has the slot, with its colour.
pub slot_distinct :
    (keys : List String) (j k : String)
    → slot (create keys) j ≢ 0
    → slot (create keys) j ≡ slot (create keys) k
    → (j ≡ k)
      × (get_elem? (legend (create keys)) (slot (create keys) j - 1)
          ≡ some (j, color (create keys) j))
unfolding create Numbered
slot_distinct keys j k h e =
    let t = add_keys [] keys in
    let numbered = add_keys-Numbered keys [] tt in
    let held = slot-get (create keys) j h in
    (
      get-same j k t 0 (slot (create keys) j) numbered held
          (rw e (slot-get (create keys) k (λ z. h (e ∙ z)))),
      rw (color-own (create keys) j h) (
          legend_at j t 0 (slot (create keys) j) (slot (create keys) j - 1) numbered held
            (slot-bound (create keys) j) (omega arith)),
    )
