-- ===== src/Class2/Update.antt =====
-- update of Class2Params (libhylafax/Class2Params.c++): the bits of T.30 for the parameters of a session.
use hyla_fax.Base.{ℕ, ◌^◌, Bool, true, false, not, ◌&&◌, ◌||◌, ◌==◌, if◌then◌else◌, List, [], ◌∷◌}
use hyla_fax.FaxParams.Bits.{setup_t30_words, set_bit}
use hyla_fax.Class2.Session.{Session, has}

-- CHECKPARAM.
abbrev pub check_param : (a b : ℕ) → (c : Bool) → Bool
check_param a b c = if c then has a (2 ^ b) else a == b

-- The calls of setBit with true, in the order of the code: the condition and the number of the bit.
abbrev pub resolution_bits : Session → (is_dis : Bool) → List (Bool × ℕ)
resolution_bits p is_dis =
    (has p.vr 0x01 || has p.vr 0x10, 15)
    ∷ (has p.vr 0x02 || has p.vr 0x20, 41)
    ∷ (has p.vr 0x04, 43)
    ∷ (has p.vr 0x40, 42)
    ∷ (not is_dis && (has p.vr 0x10 || has p.vr 0x20 || has p.vr 0x40), 44)
    ∷ []

abbrev pub rate_bits : Session → (is_dis : Bool) → List (Bool × ℕ)
rate_bits p is_dis =
    if is_dis
    then (check_param p.br 5 true, 14)
      ∷ (check_param p.br 3 true, 11)
      ∷ (check_param p.br 1 true, 12)
      ∷ (check_param p.br 13 true, 6)
      ∷ []
    else (check_param p.br 5 false, 14)
      ∷ (check_param p.br 4 false, 14)
      ∷ (check_param p.br 4 false, 12)
      ∷ (check_param p.br 3 false, 11)
      ∷ (check_param p.br 2 false, 11)
      ∷ (check_param p.br 2 false, 12)
      ∷ (check_param p.br 1 false, 12)
      ∷ []

abbrev pub page_bits : Session → (is_dis : Bool) → List (Bool × ℕ)
page_bits p is_dis =
    (check_param p.wd 2 is_dis, 18)
    ∷ (not (check_param p.wd 2 is_dis) && check_param p.wd 1 is_dis, 17)
    ∷ (check_param p.ln 2 is_dis, 20)
    ∷ (not (check_param p.ln 2 is_dis) && check_param p.ln 1 is_dis, 19)
    ∷ []

abbrev pub format_bits : Session → (is_dis : Bool) → List (Bool × ℕ)
format_bits p is_dis =
    let ecm = check_param p.ec 1 is_dis || check_param p.ec 2 is_dis in
    (check_param p.df 1 is_dis, 16)
    ∷ (check_param p.df 3 is_dis && ecm, 31)
    ∷ (check_param p.df 4 is_dis && ecm, 78)
    ∷ (check_param p.jp 1 is_dis && ecm, 68)
    ∷ (check_param p.jp 2 is_dis && ecm, 68)
    ∷ (check_param p.jp 2 is_dis && ecm, 69)
    ∷ []

abbrev pub scan_bits : Session → (is_dis : Bool) → List (Bool × ℕ)
scan_bits p is_dis =
    let st = λ (b : ℕ). check_param p.st b is_dis in
    (st 1 || st 4 || st 6 || st 0, 21)
    ∷ (st 3 || st 2 || st 4 || st 0, 22)
    ∷ (st 7 || st 2 || st 6 || st 0, 23)
    ∷ []

-- These calls, one after the other.
unfoldable pub set_all : List (Bool × ℕ) → List ℕ → List ℕ
set_all [] m = m
set_all ((c, n) ∷ more) m = let m' = if c then set_bit m n true else m in set_all more m'

-- The bits of the error correction.
unfoldable pub set_ecm : Session → (is_dis : Bool) → List ℕ → List ℕ
set_ecm p is_dis m =
    let framesize : ℕ = if is_dis then 7 else 28 in
    let m1 = if check_param p.ec 1 is_dis then set_bit (set_bit m 27 true) framesize true else m in
    if check_param p.ec 2 is_dis then set_bit (set_bit m1 27 true) framesize false else m1

unfoldable pub update : Session → (is_dis : Bool) → List ℕ
update p is_dis =
    let m0 = set_bit (setup_t30_words 0 0) 10 true in
    let m1 = set_all (resolution_bits p is_dis) m0 in
    let m2 = set_all (rate_bits p is_dis) m1 in
    let m3 = set_all (page_bits p is_dis) m2 in
    let m4 = set_all (format_bits p is_dis) m3 in set_ecm p is_dis (set_all (scan_bits p is_dis) m4)
