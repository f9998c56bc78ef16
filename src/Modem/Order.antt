-- ===== src/Modem/Order.antt =====
-- The master list of the modems (faxd/Modem.c++) stays sorted by priority, its addresses apart, and the
-- number of the ready modems counts them. A priority is at most 255, as the manual page of the
-- configuration (hylafax-config) has it.
use hyla_fax.Base.{
  ℕ, ◌%◌, ◌^◌, ◌≤◌, Bool, false, ◌==◌, List, [], ◌∷◌, ◌++◌, Option, none, some, ◌≡◌, refl, sym, ◌∙◌,
  arith, inl, inr, Bool-cases,
}
use hyla_fax.Base.Ordered.{
  All, All-map, IsSorted, count, insert_while-All, insert_while-IsSorted, insert_while-pairwise,
  remove_first-All, remove_first-IsSorted, count-insert_while, snoc-All, snoc-IsSorted,
}
use hyla_fax.Modem.Model.{
  Modem, Modems, ModemState, ready, is_ready, update, placed, unlinked, set_state, set_capabilities,
  get_modem_by_id, modem_exists, new_modem,
}
use hyla_fax.Class2.Caps.{decode_caps}
use hyla_fax.Base.Options.{Option-cases}
use hyla_fax.Modem.Listed.{
  Before, Apart, listed, listed-update, listed-insert_while, update-All, update-IsSorted,
  count-update, count-unlinked, unlinked-Apart,
}

abbrev pub counts : Modem → Bool
counts m = is_ready m.state

pub record IsModems (ms : Modems) : Type 0 where
  pub sorted : IsSorted Before ms.list
  pub apart : IsSorted Apart ms.list
  pub ranged : All (λ m. m.priority ≤ 255) ms.list
  pub counted : ms.modems_ready ≡ count counts ms.list

Before-trans : (a b c : Modem) → Before a b → Before b c → Before a c
Before-trans a b c ab bc = omega arith

-- setState keeps what holds, of a modem on the list.
pub set_state-IsModems :
    (ms : Modems) (m : Modem) (s : ModemState)
    → listed ms.list m.self ≡ some m
    → IsModems ms
    → IsModems (set_state ms m s)
unfolding set_state
set_state-IsModems ms m s here v =
    let new : Modem = record m { state = s } in
    record {
      sorted = update-IsSorted m new Before ms.list here (λ x r. r) (λ x r. r) v.sorted;
      apart = update-IsSorted m new Apart ms.list here (λ x r. r) (λ x r. r) v.apart;
      ranged = update-All m new (λ x. x.priority ≤ 255) ms.list here (λ r. r) v.ranged;
      counted = ground (arith, v.counted, count-update m new counts ms.list here);
    }

-- A modem moves to the place that its priority has.
pub placed-IsModems :
    (ms : Modems) (pri : ℕ) (m : Modem) (moved : Modem)
    → listed ms.list m.self ≡ some m
    → moved.self ≡ m.self
    → moved.state ≡ m.state
    → moved.priority ≡ pri
    → pri ≤ 255
    → IsModems ms
    → IsModems (record ms { list = placed pri moved (unlinked ms.list m) })
placed-IsModems ms pri m moved here same_self same_state same_pri low v =
    let rest = unlinked ms.list m in
    let away = unlinked-Apart ms.list m here v.apart in
    record {
      sorted =
          insert_while-IsSorted _ moved Before rest Before-trans (λ x e. ground (arith, e))
            (λ x e. ground (arith, e)) (remove_first-IsSorted _ Before ms.list v.sorted);
      apart =
          insert_while-pairwise Apart _ moved rest
            (All-map (λ x. Apart x m) (λ x. Apart x moved) rest
              (λ x a. ground (arith, same_self, a)) away)
            (All-map (λ x. Apart x m) (Apart moved) rest (λ x a. ground (arith, same_self, a)) away)
            (remove_first-IsSorted _ Apart ms.list v.apart);
      ranged =
          insert_while-All _ moved (λ x. x.priority ≤ 255) rest (omega arith)
            (remove_first-All _ (λ x. x.priority ≤ 255) ms.list v.ranged);
      counted =
          v.counted
          ∙ sym (count-unlinked counts ms.list m here)
          ∙ rw (count-insert_while counts, same_state) (omega arith);
    }

-- The capabilities of a modem change.
told-IsModems :
    (ms : Modems) (m told : Modem)
    → listed ms.list told.self ≡ some m
    → m.self ≡ told.self
    → told.state ≡ m.state
    → told.priority ≡ m.priority
    → IsModems ms
    → IsModems (record ms { list = update ms.list told })
told-IsModems ms m told here same_self same_state same_priority v = record {
  sorted =
      update-IsSorted m told Before ms.list here (λ x r. omega arith) (λ x r. omega arith) v.sorted;
  apart =
      update-IsSorted m told Apart ms.list here (λ x r. ground (arith, same_self, r))
        (λ x r. ground (arith, same_self, r)) v.apart;
  ranged = update-All m told (λ x. x.priority ≤ 255) ms.list here (λ r. omega arith) v.ranged;
  counted = ground (arith, v.counted, same_state, count-update m told counts ms.list here);
}

-- A priority that is told is of the documented range.
abbrev pub IsRanged : Option ℕ → Type 0
IsRanged none = Unit
IsRanged (some p) = p ≤ 255

-- setCapabilities keeps what holds, of a modem on the list and with a priority of the documented range.
pub set_capabilities-IsModems :
    (ms : Modems) (m : Modem) (polls : Bool) (word : ℕ) (pri : Option ℕ)
    → listed ms.list m.self ≡ some m
    → IsRanged pri
    → IsModems ms
    → IsModems (set_capabilities ms m polls word pri)
unfolding set_capabilities
set_capabilities-IsModems ms m polls word none here low v =
    let told : Modem = record m { canpoll = polls; caps = decode_caps word } in
    set_state-IsModems (record ms { list = update ms.list told }) told ready
      (listed-update ms.list m told here) (told-IsModems ms m told here refl refl refl v)
set_capabilities-IsModems ms m polls word (some p) here low v =
    let told : Modem = record m { canpoll = polls; caps = decode_caps word } in
    let moved : Modem = record told { priority = p % 2 ^ 16 } in
    elim (Bool-cases (p == m.priority)) [
      | inl same ↦ simp same (
          set_state-IsModems (record ms { list = update ms.list told }) told ready
            (listed-update ms.list m told here) (told-IsModems ms m told here refl refl refl v))
      | inr other ↦ simp other (
          set_state-IsModems (record ms { list = placed p moved (unlinked ms.list m) }) moved ready
            (listed-insert_while _ (unlinked ms.list m) moved
              (unlinked-Apart ms.list m here v.apart))
            (placed-IsModems ms p m moved here refl refl (omega (arith, low)) low v))
    ]

count-snoc :
    (p : Modem → Bool) (ms : List Modem) (m : Modem)
    → p m ≡ false
    → count p (ms ++ m ∷ []) ≡ count p ms
unfolding count
count-snoc p [] m e = rw e refl
count-snoc p (x ∷ ms) m e = rw (count-snoc p ms m e) refl

-- getModemByID keeps what holds, when a new modem has an address of its own.
pub get_modem_by_id-IsModems :
    (ms : Modems) (fresh : ℕ) (id : List ℕ)
    → All (λ x. (x.self == fresh) ≡ false) ms.list
    → IsModems ms
    → IsModems (get_modem_by_id ms fresh id).0
unfolding get_modem_by_id
get_modem_by_id-IsModems ms fresh id new v = elim (Option-cases (modem_exists ms.list id)) [
  | inl missing ↦
      simp (get_modem_by_id, missing)
        (record {
          sorted = snoc-IsSorted Before made ms.list v.ranged v.sorted;
          apart = snoc-IsSorted Apart made ms.list new v.apart;
          ranged = snoc-All (λ x. x.priority ≤ 255) made ms.list (omega arith) v.ranged;
          counted = v.counted ∙ sym (count-snoc counts ms.list made refl);
        })
  | inr known ↦ simp (get_modem_by_id, known.is_value) v
]
  where
    made : Modem
    made = new_modem fresh id
