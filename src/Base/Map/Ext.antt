-- ===== src/Base/Map/Ext.antt =====
-- A sorted map is determined by its lookups.
use openqbw.Base.{◌≡◌, refl, sym, [], ◌∷◌, none, some, arith, inl, inr, All, All-map}
use openqbw.Base.Order.{Ord, Ordering-cases}
use openqbw.Base.Map.{Map, get, values}
use openqbw.Base.Map.Laws.{IsSorted, get_of_Below, get_head}
use Prim.Native.Nat.Ordering.{lt}

module _ {K V : Type 0} ⦃o : Ord K⦄ where
  -- A predicate that holds at each entry holds at what a lookup finds.
  pub get-All :
      (P : K → V → Type 0) (k : K) (v : V) (m : Map K V)
      → All (λ (e : K × V). P e.0 e.1) m
      → get k m ≡ some v
      → P k v
  unfolding get
  get-All P k v [] h e = cc
  get-All P k v ((j, w) ∷ m) h e = elim (Ordering-cases (o.cmp k j)) [
    | inl c ↦ get-All P k v m h.1 (ground arith)
    | inr (inl c) ↦ let same : w ≡ v = ground arith in rw (← same) (rw (o.eq_of_cmp k j c) h.0)
    | inr (inr c) ↦ get-All P k v m h.1 (ground arith)
  ]

  pub get-values :
      (P : V → Type 0) (k : K) (v : V) (m : Map K V) → All P (values m) → get k m ≡ some v → P v
  unfolding get
  get-values P k v [] h e = cc
  get-values P k v ((j, w) ∷ m) h e = elim (Ordering-cases (o.cmp k j)) [
    | inl c ↦ get-values P k v m h.1 (ground arith)
    | inr (inl c) ↦ let same : w ≡ v = ground arith in rw (← same) h.0
    | inr (inr c) ↦ get-values P k v m h.1 (ground arith)
  ]

  -- A key found behind the first entry of a sorted map is found in the whole map.
  get_behind :
      (k j : K) (v w : V) (m : Map K V)
      → IsSorted ((k, v) ∷ m)
      → get j m ≡ some w
      → get j ((k, v) ∷ m) ≡ some w
  unfolding get
  get_behind k j v w m s e = elim (Ordering-cases (o.cmp j k)) [
    | inl c ↦ rw (c, get) e
    | inr (inl c) ↦ cc (e, get_of_Below k m s.0 s.1, o.eq_of_cmp j k c)
    | inr (inr c) ↦ rw (c, get) e
  ]

  -- In a sorted map each entry is what the lookup of its key finds.
  pub All-get : (m : Map K V) → IsSorted m → All (λ (e : K × V). get e.0 m ≡ some e.1) m
  All-get [] s = tt
  All-get ((k, v) ∷ m) s = (
    get_head k v m,
    All-map (λ (e : K × V). get e.0 m ≡ some e.1) (λ (e : K × V). get e.0 ((k, v) ∷ m) ≡ some e.1)
        (λ e. get_behind k e.0 v e.1 m s) m (All-get m s.1),
  )

  -- What the two tails hold, when the maps and their first keys agree.
  get_of_tails :
      (k i : K) (v w : V) (m n : Map K V)
      → IsSorted ((k, v) ∷ m)
      → IsSorted ((k, w) ∷ n)
      → get i ((k, v) ∷ m) ≡ get i ((k, w) ∷ n)
      → get i m ≡ get i n
  unfolding get
  get_of_tails k i v w m n s t h = elim (Ordering-cases (o.cmp i k)) [
    | inl c ↦ ground arith
    | inr (inl c) ↦ cc (get_of_Below k m s.0 s.1, get_of_Below k n t.0 t.1, o.eq_of_cmp i k c)
    | inr (inr c) ↦ ground arith
  ]

  -- A key below the first one is not found.
  get_before :
      (k j : K) (w : V) (n : Map K V)
      → o.cmp k j ≡ lt
      → IsSorted ((j, w) ∷ n)
      → get k ((j, w) ∷ n) ≡ none
  get_before k j w n c t = get_of_Below k ((j, w) ∷ n) c t

  pub Map-ext : (m n : Map K V) → IsSorted m → IsSorted n → ((k : K) → get k m ≡ get k n) → m ≡ n
  Map-ext [] [] s t h = refl
  Map-ext [] ((j, w) ∷ n) s t h = unfold get in cc (h j, get_head j w n)
  Map-ext ((k, v) ∷ m) [] s t h = unfold get in cc (h k, get_head k v m)
  Map-ext ((k, v) ∷ m) ((j, w) ∷ n) s t h = elim (Ordering-cases (o.cmp k j)) [
    | inl c ↦ cc (h k, get_head k v m, get_before k j w n c t)
    | inr (inl c) ↦
        let key : j ≡ k = sym (o.eq_of_cmp k j c) in
        let t' : IsSorted ((k, w) ∷ n) = rw (← key) t in
        let h' : (i : K) → get i ((k, v) ∷ m) ≡ get i ((k, w) ∷ n) = λ i. rw key at (h i) in
        let tails = Map-ext m n s.1 t.1 (λ i. get_of_tails k i v w m n s t' (h' i)) in
        cc (key, tails, h' k, get_head k v m, get_head k w n)
    | inr (inr c) ↦ cc (h j, get_head j w n, get_before j k v m (o.lt_of_gt k j c) s)
  ]
