-- ===== src/Class2/Session.antt =====
-- setFromDIS and setFromDCS of Class2Params (libhylafax/Class2Params.c++): the parameters of a session from
-- the bits of T.30. The masks are those of libhylafax/t.30.h and the codes those of libhylafax/class2.h,
-- written as numbers. Shifts to the left stay below 2^32, since a byte is below 2^8.
use hyla_fax.Base.{
  ℕ, ◌*◌, ◌/◌, ◌^◌, bit_and, bit_or, Bool, not, ◌&&◌, ◌||◌, ◌==◌, if◌then◌else◌, List, [], ◌∷◌,
  get_or,
}
use hyla_fax.FaxParams.Bits.{get_byte, is_bit_enabled}

-- The codes of a session; m_bits, the bits of the same object, are the argument or the result of each
-- function.
pub record Session : Type 0 where
  pub vr : ℕ
  pub br : ℕ
  pub wd : ℕ
  pub ln : ℕ
  pub df : ℕ
  pub ec : ℕ
  pub bf : ℕ
  pub st : ℕ
  pub jp : ℕ

-- A mask as a condition.
abbrev pub has : (v mask : ℕ) → Bool
has v mask = not (bit_and v mask == 0)

abbrev pub or_if : Bool → (mask v : ℕ) → ℕ
or_if c mask v = if c then bit_or v mask else v

-- DISvrTab, DISbrTab, DISwdTab, DISlnTab, DISstTab and DCSbrTab.
abbrev pub dis_vr_tab : List ℕ
dis_vr_tab = 0x00 ∷ 0x01 ∷ []

abbrev pub dis_br_tab : List ℕ
dis_br_tab = 0 ∷ 5 ∷ 3 ∷ 5 ∷ 1 ∷ 5 ∷ 1 ∷ 5 ∷ 3 ∷ 5 ∷ 3 ∷ 5 ∷ 3 ∷ 5 ∷ 5 ∷ 5 ∷ []

abbrev pub dis_wd_tab : List ℕ
dis_wd_tab = 0 ∷ 2 ∷ 1 ∷ 0 ∷ []

abbrev pub dis_ln_tab : List ℕ
dis_ln_tab = 0 ∷ 2 ∷ 1 ∷ 0 ∷ []

abbrev pub dis_st_tab : List ℕ
dis_st_tab = 5 ∷ 7 ∷ 3 ∷ 2 ∷ 1 ∷ 6 ∷ 4 ∷ 0 ∷ []

abbrev pub dcs_br_tab : List ℕ
dcs_br_tab = 0 ∷ 5 ∷ 5 ∷ 0 ∷ 1 ∷ 4 ∷ 4 ∷ 0 ∷ 3 ∷ 3 ∷ 3 ∷ 0 ∷ 2 ∷ 2 ∷ 2 ∷ 0 ∷ []

-- setFromDIS on the words.
unfoldable pub set_from_dis_words : (dis xinfo : ℕ) → Session
set_from_dis_words dis xinfo =
    let fine = has dis 0x000200 in
    let ecm = has xinfo (0x20 * 2 ^ 24) in
    let r8 = has xinfo (0x80 * 2 ^ 8) in
    let metres = has xinfo (0x08 * 2 ^ 8) in
    let inches = has xinfo (0x10 * 2 ^ 8) in
    let vr0 = get_or dis_vr_tab (bit_and dis 0x000200 / 2 ^ 9) 0 in
    let vr1 = or_if (metres && r8) 0x02 vr0 in
    let vr2 = or_if (metres && has xinfo (0x20 * 2 ^ 8)) 0x04 vr1 in
    let vr3 = or_if inches 0x08 vr2 in
    let vr4 = or_if (inches && fine) 0x10 vr3 in
    let vr5 = or_if (inches && r8) 0x20 vr4 in
    let vr6 = or_if (has xinfo (0x40 * 2 ^ 8)) 0x40 vr5 in
    let df1 = or_if (has xinfo (0x02 * 2 ^ 24) && ecm) (2 ^ 3) (2 ^ 0) in
    let df2 = or_if (has xinfo (0x40 * 2 ^ 24)) (2 ^ 2) df1 in
    record {
      vr = vr6;
      br =
          if has dis 0x040000 && ecm
          then 13
          else get_or dis_br_tab (bit_and dis 0x003c00 / 2 ^ 10) 0;
      wd = get_or dis_wd_tab (bit_and dis 0x0000c0 / 2 ^ 6) 0;
      ln = get_or dis_ln_tab (bit_and dis 0x000030 / 2 ^ 4) 0;
      df = or_if (has dis 0x000100) (2 ^ 1) df2;
      ec = if ecm then (if has dis 0x020000 then 1 else 2) else 0;
      bf = 0;
      st = get_or dis_st_tab (bit_and dis 0x00000e / 2 ^ 1) 0;
      jp = 0;
    }

-- The words that setFromDIS and setFromDCS make of the bytes.
abbrev pub first_word : List ℕ → ℕ
first_word m =
    bit_or (bit_or (bit_or 0 (get_byte m 0 * 2 ^ 16)) (get_byte m 1 * 2 ^ 8)) (get_byte m 2 * 2 ^ 0)

abbrev pub xinfo_word : List ℕ → ℕ
xinfo_word m =
    bit_or
      (bit_or (bit_or (bit_or 0 (get_byte m 3 * 2 ^ 24)) (get_byte m 4 * 2 ^ 16))
        (get_byte m 5 * 2 ^ 8))
      (get_byte m 6 * 2 ^ 0)

-- setFromDIS on the bits.
unfoldable pub set_from_dis : (dis_caps : List ℕ) → Session
set_from_dis dis_caps =
    let p = set_from_dis_words (first_word dis_caps) (xinfo_word dis_caps) in
    let jp1 = or_if (is_bit_enabled dis_caps 68) (2 ^ 1) p.jp in
    let jp2 = or_if (is_bit_enabled dis_caps 69 && has jp1 (2 ^ 1)) (2 ^ 2) jp1 in
    if p.ec == 0
    then p
    else record p { df = or_if (is_bit_enabled dis_caps 78) (2 ^ 4) p.df; jp = jp2 }

-- setFromDCS on the words.
unfoldable pub set_from_dcs_words : (dcs xinfo : ℕ) → Session
set_from_dcs_words dcs xinfo =
    let p = set_from_dis_words dcs xinfo in
    let r8 = has xinfo (0x80 * 2 ^ 8) in
    let dpi300 = has xinfo (0x40 * 2 ^ 8) in
    let r16 = has xinfo (0x20 * 2 ^ 8) in
    let inch_res =
      if r16
      then 0x04
      else if dpi300
      then 0x40
      else if r8
      then 0x20
      else if has dcs 0x000200
      then 0x10
      else 0x08 in
    let metric_res =
      if dpi300
      then 0x40
      else if r16
      then 0x04
      else if r8
      then 0x02
      else get_or dis_vr_tab (bit_and dcs 0x000200 / 2 ^ 9) 0 in
    record p {
      vr = if has xinfo (0x10 * 2 ^ 8) then inch_res else metric_res;
      br = get_or dcs_br_tab (bit_and dcs 0x003c00 / 2 ^ 10) 0;
      df = if has p.df (2 ^ 3) then 3 else if has p.df (2 ^ 1) then 1 else 0;
      ec = if has xinfo (0x20 * 2 ^ 24) then (if has xinfo (2 ^ 28) then 1 else 2) else 0;
    }

-- setFromDCS on the bits.
unfoldable pub set_from_dcs : (dcs_caps : List ℕ) → Session
set_from_dcs dcs_caps =
    let p = set_from_dcs_words (first_word dcs_caps) (xinfo_word dcs_caps) in
    let letter = is_bit_enabled dcs_caps 76 || is_bit_enabled dcs_caps 77 in
    let df1 = if is_bit_enabled dcs_caps 78 then 4 else p.df in
    let df2 = if is_bit_enabled dcs_caps 79 then 4 else df1 in
    let jp1 = if is_bit_enabled dcs_caps 68 then 1 else p.jp in
    let jp2 = if is_bit_enabled dcs_caps 69 then (if jp1 == 1 then 2 else jp1) else jp1 in
    let df3 = if jp2 == 0 then df2 else 0 in
    let needs_ecm = df3 == 3 || df3 == 4 || jp2 == 1 || jp2 == 2 in
    record p {
      wd = if letter then 0 else p.wd;
      ln = if letter then 2 else p.ln;
      df = df3;
      jp = jp2;
      ec = if p.ec == 0 && needs_ecm then 2 else p.ec;
    }
