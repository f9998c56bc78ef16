-- ===== src/Dictionary/Iterate.antt =====
-- fxDictIter (libhylafax/Dictionary.c++) sees each item of a dictionary once, in the order of the buckets,
-- if the dictionary does not change meanwhile.
use hyla_fax.Base.{
  ℕ, zero, suc, ◌+◌, ◌≤◌, true, false, List, [], ◌∷◌, ◌++◌, length, drop, length-append, ◌⊎◌, ◌≡◌,
  refl, sym, ap, ◌∙◌, arith, inl, inr,
}
use hyla_fax.Base.Lists.{drop_add}
use hyla_fax.Dictionary.Table.{
  Dictionary, DictIter, bucket_at, advance, settle, start, increment, visit,
}
use hyla_fax.Dictionary.Map.{count}

module _ {K V : Type 0} where
  -- The items of a list of buckets.
  unfoldable pub items : List (List (K × V)) → List (K × V)
  items [] = []
  items (chain ∷ chains) = chain ++ items chains

  length-items : (chains : List (List (K × V))) → length (items chains) ≡ count chains
  unfolding items count
  length-items [] = refl
  length-items (chain ∷ chains) =
      length-append chain (items chains) ∙ ap (λ (n : ℕ). length chain + n) (length-items chains)

  first_bucket :
      (chains : List (List (K × V))) → bucket_at chains 0 ++ items (drop 1 chains) ≡ items chains
  unfolding items
  first_bucket [] = refl
  first_bucket (chain ∷ chains) = refl

  -- An iterator on the node b, item, chain; and one that has seen all.
  abbrev at_node : ℕ → K × V → List (K × V) → DictIter K V
  at_node b item chain = record { dict = true; bucket = b; invalid = false; node = item ∷ chain }

  abbrev at_end : ℕ → DictIter K V
  at_end b = record { dict = false; bucket = b; invalid = true; node = [] }

  module _ (d : Dictionary K V) where
    -- The iterator stands on the first of the items `rest`, and the others are behind it.
    record IsAt (it : DictIter K V) (rest : List (K × V)) : Type 0 where
      b : ℕ
      item : K × V
      chain : List (K × V)
      stands : it ≡ at_node b item chain
      ahead : rest ≡ item ∷ (chain ++ items (drop (b + 1) d.buckets))

    -- The iterator has no items left.
    record IsDone (it : DictIter K V) (rest : List (K × V)) : Type 0 where
      b : ℕ
      stands : it ≡ at_end b
      ahead : rest ≡ []

    abbrev Sees : DictIter K V → List (K × V) → Type 0
    Sees it rest = IsAt it rest ⊎ IsDone it rest

    advance-Sees :
        (b : ℕ) (chains : List (List (K × V)))
        → drop (b + 1) d.buckets ≡ chains
        → Sees (advance b chains) (items chains)
    unfolding advance items
    advance-Sees b [] e = inr (record { b = b + 1; stands = refl; ahead = refl })
    advance-Sees b ([] ∷ chains) e =
        let e' : drop (b + 1 + 1) d.buckets ≡ chains =
          drop_add (b + 1) 1 d.buckets ∙ ap (drop 1) e in
        advance-Sees (b + 1) chains e'
    advance-Sees b ((item ∷ chain) ∷ chains) e =
        let e' : drop (b + 1 + 1) d.buckets ≡ chains =
          drop_add (b + 1) 1 d.buckets ∙ ap (drop 1) e in
        inl (record { b = b + 1; item = item; chain = chain; stands = refl; ahead = rw e' refl })

    settle-Sees :
        (b : ℕ) (node : List (K × V))
        → Sees (settle d b node) (node ++ items (drop (b + 1) d.buckets))
    unfolding settle
    settle-Sees b [] = advance-Sees b (drop (b + 1) d.buckets) refl
    settle-Sees b (item ∷ chain) =
        inl (record { b = b; item = item; chain = chain; stands = refl; ahead = refl })

    visit-Sees :
        (fuel : ℕ) (it : DictIter K V) (rest : List (K × V))
        → Sees it rest
        → length rest ≤ fuel
        → visit fuel d it ≡ rest
    unfolding visit increment
    visit-Sees zero it rest (inl a) enough = absurd (omega (arith, ap length a.ahead))
    visit-Sees zero it rest (inr e) enough = sym e.ahead
    visit-Sees (suc fuel) it rest (inr e) enough = rw (e.stands, e.ahead) refl
    visit-Sees (suc fuel) it rest (inl a) enough =
        let later = a.chain ++ items (drop (a.b + 1) d.buckets) in
        let enough' : length later ≤ fuel = omega (arith, ap length a.ahead) in
        rw (a.stands, a.ahead)
          (ap (◌∷◌ a.item)
            (visit-Sees fuel (settle d a.b a.chain) later (settle-Sees a.b a.chain) enough'))

    start-Sees : Sees (start d) (items d.buckets)
    unfolding start
    start-Sees = rw (first_bucket d.buckets) at (settle-Sees 0 (bucket_at d.buckets 0))

    -- The loop over a dictionary that does not change sees the items of all buckets in order, each once,
    -- and ends within as many rounds as there are items.
    pub visit-start : (fuel : ℕ) → count d.buckets ≤ fuel → visit fuel d (start d) ≡ items d.buckets
    visit-start fuel enough =
        visit-Sees fuel (start d) (items d.buckets) start-Sees
          (omega (arith, enough, length-items d.buckets))
