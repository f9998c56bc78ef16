-- ===== src/Dispatcher/Children.antt =====
-- The children of the dispatcher (ChildQueue of libhylafax/Dispatcher.c++): a status of -1, of a child that
-- still runs, is `none`. A handler that is called may start more children: what it does is the parameter
-- `react`, on a state `W` of the rest of the program.
use hyla_fax.Base.{
  ℕ, zero, suc, ◌+◌, ◌≤◌, Bool, true, false, ◌==◌, if◌then◌else◌, List, [], ◌∷◌, ◌++◌, map, Option,
  none, some, length, length-append, ◌≡◌, refl, ◌∙◌, arith, inl, inr, Bool-cases,
}
use mathlib.Core.List.{append-nil, append_assoc, map-append}
use hyla_fax.Base.Ordered.{remove_first}

pub record Child : Type 0 where
  pub pid : ℕ
  pub status : Option ℕ
  pub handler : ℕ

pub record ChildQueue : Type 0 where
  pub children : List Child
  pub ready : Bool

abbrev pub is_ended : Child → Bool
is_ended c = elim c.status [ none ↦ false | some status ↦ true ]

-- The constructor of Child, for a process and its handler.
abbrev pub new_child : ℕ × ℕ → Child
new_child (p, h) = record { pid = p; status = none; handler = h }

-- insert: at the end.
unfoldable pub insert : ChildQueue → (p h : ℕ) → ChildQueue
insert queue p h = record queue { children = queue.children ++ new_child (p, h) ∷ [] }

unfoldable pub remove : ChildQueue → (h : ℕ) → ChildQueue
remove queue h = record queue {
  children = remove_first (λ doomed. doomed.handler == h) queue.children;
}

-- The loop of setStatus: whether there is such a child, and the children.
unfoldable pub mark_status : List Child → (p status : ℕ) → Bool × List Child
mark_status [] p status = (false, [])
mark_status (c ∷ cs) p status =
    let rest = mark_status cs p status in
    if c.pid == p then (true, record c { status = some status } ∷ cs) else (rest.0, c ∷ rest.1)

unfoldable pub set_status : ChildQueue → (p status : ℕ) → ChildQueue
set_status queue p status =
    let r = mark_status queue.children p status in
    record { children = r.1; ready = if r.0 then true else queue.ready }

module _ {ℓ} {W : Type ℓ} (react : W → Child → W × List (ℕ × ℕ)) where
  -- The loop of notify from one link of the list on, with the number of its rounds bounded by the fuel.
  unfoldable pub notify_from : ℕ → W → List Child → Option (W × List Child)
  notify_from fuel w [] = some (w, [])
  notify_from zero w (c ∷ cs) = none
  notify_from (suc fuel) w (c ∷ cs) =
      let r = react w c in
      let after = notify_from fuel r.0 (cs ++ map new_child r.1) in
      let passed = notify_from fuel w cs in
      if is_ended c then after else elim passed [ none ↦ none | some s ↦ some (s.0, c ∷ s.1) ]

  unfoldable pub notify : ℕ → W → ChildQueue → Option (W × ChildQueue)
  notify fuel w queue = elim (notify_from fuel w queue.children) [
    | none ↦ none
    | some s ↦ some (s.0, record { children = s.1; ready = false })
  ]

  -- The handlers of the children that have ended, called one after the other, and the children they start.
  abbrev pub calls : W → List Child → W × List (ℕ × ℕ)
  calls w [] = (w, [])
  calls w (c ∷ cs) =
      let r = react w c in
      let after = calls r.0 cs in
      let passed = calls w cs in if is_ended c then (after.0, r.1 ++ after.1) else passed

-- The children that still run.
abbrev pub running : List Child → List Child
running [] = []
running (c ∷ cs) = if is_ended c then running cs else c ∷ running cs

module _ {ℓ} {W : Type ℓ} (react : W → Child → W × List (ℕ × ℕ)) where
  notify_from-started :
      (fuel : ℕ) (w : W) (started : List (ℕ × ℕ))
      → length started ≤ fuel
      → notify_from react fuel w (map new_child started) ≡ some (w, map new_child started)
  unfolding notify_from
  notify_from-started fuel w [] enough = refl
  notify_from-started zero w (p ∷ started) enough = absurd (omega arith)
  notify_from-started (suc fuel) w (p ∷ started) enough =
      simp (notify_from-started fuel w started (omega arith)) refl

  notify_from-calls :
      (fuel : ℕ) (w : W) (queue : List Child) (started : List (ℕ × ℕ))
      → length queue + length started + length (calls react w queue).1 ≤ fuel
      → notify_from react fuel w (queue ++ map new_child started)
        ≡ some (
          (calls react w queue).0,
          running queue ++ map new_child (started ++ (calls react w queue).1),
        )
  unfolding notify_from
  notify_from-calls fuel w [] started enough =
      rw append-nil (notify_from-started fuel w started (omega arith))
  notify_from-calls zero w (c ∷ cs) started enough = absurd (omega arith)
  notify_from-calls (suc fuel) w (c ∷ cs) started enough =
      let r = react w c in
      elim (Bool-cases (is_ended c)) [
        | inl ended ↦
            let few : length cs + length (started ++ r.1) + length (calls react r.0 cs).1 ≤ fuel =
              ground (
                arith,
                ended,
                enough,
                length-append started r.1,
                length-append r.1 (calls react r.0 cs).1,
              ) in
            simp ended (
              rw (append_assoc, ← map-append)
                (notify_from-calls fuel r.0 cs (started ++ r.1) few ∙ simp append_assoc refl))
        | inr runs ↦
            let few : length cs + length started + length (calls react w cs).1 ≤ fuel =
              ground (arith, runs, enough) in
            simp (runs, notify_from-calls fuel w cs started few) refl
      ]

  -- notify calls the handlers of exactly the children that have ended, in the order of the queue, and
  -- leaves the children that run, with the ones which the handlers started behind them.
  pub notify-calls :
      (fuel : ℕ) (w : W) (queue : ChildQueue)
      → length queue.children + length (calls react w queue.children).1 ≤ fuel
      → notify react fuel w queue
        ≡ some (
          (calls react w queue.children).0,
          record {
            children = running queue.children ++ map new_child (calls react w queue.children).1;
            ready = false;
          },
        )
  unfolding notify
  notify-calls fuel w queue enough =
      let e = notify_from-calls fuel w queue.children [] (omega (arith, enough)) in
      let shown = simp append-nil at e in rw (notify, shown) refl
