-- ===== src/Class2/Received.antt =====
-- What setFromDCS and setFromDIS (libhylafax/Class2Params.c++) leave for any bits that a remote machine sends.
use hyla_fax.Base.{
  ℕ, ◌+◌, ◌*◌, ◌^◌, ◌≤◌, ◌⊎◌, Bool, true, false, not, ◌&&◌, ◌||◌, leb, ◌==◌, if◌then◌else◌, List,
  get_or, ◌≡◌, refl, arith, inl, inr, Bool-cases,
}
use hyla_fax.Base.Checks.{all_below, all_below_sound}
use hyla_fax.FaxParams.Bits.{is_bit_enabled}
use hyla_fax.FaxParams.View.{IsFaxBits}
use hyla_fax.Class2.Session.{
  Session, has, or_if, dis_vr_tab, dis_wd_tab, dis_ln_tab, dis_st_tab, dis_br_tab, dcs_br_tab,
  set_from_dcs, set_from_dis,
}
use hyla_fax.Class2.Signals.{num}
use hyla_fax.Class2.Decoded.{
  decoded, dcs_br, dcs_st, set_from_dcs-decoded, dis_df, dis_jp, dis_ec, decoded_dis,
  set_from_dis-decoded,
}

-- MMR, JBIG and JPEG, which T.30 has only with error correction.
abbrev pub needs_ecm : (df jp : ℕ) → Bool
needs_ecm df jp = df == 3 || df == 4 || not (jp == 0)

-- The settings of a session that the code knows.
pub record IsSettled (p : Session) : Type 0 where
  pub vr_known :
      (p.vr == 0
        || p.vr == 0x01
        || p.vr == 0x02
        || p.vr == 0x04
        || p.vr == 0x08
        || p.vr == 0x10
        || p.vr == 0x20
        || p.vr == 0x40)
      ≡ true
  pub br_known : p.br ≤ 5
  pub wd_known : p.wd ≤ 2
  pub ln_known : p.ln ≤ 2
  pub df_known : (leb p.df 4 && not (p.df == 2)) ≡ true
  pub ec_known : p.ec ≤ 2
  pub st_known : p.st ≤ 7
  pub jp_known : p.jp ≤ 2
  pub one_format : (p.df == 0 || p.jp == 0) ≡ true
  pub coded : needs_ecm p.df p.jp && p.ec == 0 ≡ false

num-le : (b : Bool) → num b ≤ 1
unfolding num
num-le true = omega arith
num-le false = omega arith

br_table : all_below 16 (λ i. leb (get_or dcs_br_tab i 0) 5) ≡ true
unfolding all_below
br_table = refl

wd_table : all_below 4 (λ i. leb (get_or dis_wd_tab i 0) 2) ≡ true
unfolding all_below
wd_table = refl

ln_table : all_below 4 (λ i. leb (get_or dis_ln_tab i 0) 2) ≡ true
unfolding all_below
ln_table = refl

st_table : all_below 8 (λ i. leb (get_or dis_st_tab i 0) 7) ≡ true
unfolding all_below
st_table = refl

vr_table : all_below 2 (λ i. leb (get_or dis_vr_tab i 0) 1) ≡ true
unfolding all_below
vr_table = refl

leb_lem : (a b : ℕ) → leb a b ≡ true → a ≤ b
leb_lem a b h = ground (arith, h)

module _ (on : ℕ → Bool) where
  dcs_br-le : dcs_br on ≤ 5
  dcs_br-le = leb_lem _ _ (
      all_below_sound 16 _ _ br_table
        (omega (arith, num-le (on 11), num-le (on 12), num-le (on 13), num-le (on 14))))

  dcs_st-le : dcs_st on ≤ 7
  dcs_st-le = leb_lem _ _ (
      all_below_sound 8 _ _ st_table
        (omega (arith, num-le (on 21), num-le (on 22), num-le (on 23))))

  width-le : get_or dis_wd_tab (2 * num (on 17) + num (on 18)) 0 ≤ 2
  width-le =
      leb_lem _ _ (all_below_sound 4 _ _ wd_table (omega (arith, num-le (on 17), num-le (on 18))))

  lines-le : get_or dis_ln_tab (2 * num (on 19) + num (on 20)) 0 ≤ 2
  lines-le =
      leb_lem _ _ (all_below_sound 4 _ _ ln_table (omega (arith, num-le (on 19), num-le (on 20))))

  fine-le : get_or dis_vr_tab (num (on 15)) 0 ≤ 1
  fine-le = leb_lem _ _ (all_below_sound 2 _ _ vr_table (omega (arith, num-le (on 15))))

-- The data format, JPEG and the error correction, from what the single bits tell.
settled_formats :
    (mmr mr jbig jbig_l0 jpeg colour ecm short : Bool)
    → let group : ℕ = if mmr then 3 else if mr then 1 else 0 in
      let jp1 : ℕ = if jpeg then 1 else 0 in
      let jp = if colour then (if jp1 == 1 then 2 else jp1) else jp1 in
      let df = if jp == 0 then (if jbig_l0 then 4 else if jbig then 4 else group) else 0 in
      let ec0 : ℕ = if ecm then (if short then 1 else 2) else 0 in
      let ec = if ec0 == 0 && (df == 3 || df == 4 || jp == 1 || jp == 2) then 2 else ec0 in
      ((leb df 4 && not (df == 2)) ≡ true)
      × (ec ≤ 2)
      × (jp ≤ 2)
      × ((df == 0 || jp == 0) ≡ true)
      × (needs_ecm df jp && ec == 0 ≡ false)
settled_formats mmr mr jbig jbig_l0 jpeg colour ecm short =
    (ground arith, ground arith, ground arith, ground arith, ground arith)

decoded-IsSettled : (on : ℕ → Bool) → IsSettled (decoded on)
decoded-IsSettled on =
    let d =
      or_if (on 16) (2 ^ 1) (or_if (on 26) (2 ^ 2) (or_if (on 31 && on 27) (2 ^ 3) (2 ^ 0))) in
    let f =
      settled_formats (has d (2 ^ 3)) (has d (2 ^ 1)) (on 78) (on 79) (on 68) (on 69) (on 27)
        (on 28) in
    record {
      vr_known = ground (arith, fine-le on);
      br_known = dcs_br-le on;
      wd_known = ground (arith, width-le on);
      ln_known = ground (arith, lines-le on);
      df_known = f.0;
      ec_known = f.1;
      st_known = dcs_st-le on;
      jp_known = f.2;
      one_format = f.3;
      coded = f.4;
    }

-- Whatever bits a DCS has, setFromDCS leaves settings that the code knows: one of the eight resolutions, a
-- rate of at most 14400 bit/s, known codes of the other parameters, JPEG without another data format, and
-- error correction where the data format is MMR, JBIG or JPEG.
pub set_from_dcs-IsSettled : (m : List ℕ) → IsFaxBits m → IsSettled (set_from_dcs m)
set_from_dcs-IsSettled m is = rw (set_from_dcs-decoded m is) (decoded-IsSettled (is_bit_enabled m))

-- The capabilities that a DIS can tell.
pub record IsOffer (p : Session) : Type 0 where
  pub br_known : p.br ≤ 5 ⊎ p.br ≡ 13
  pub v34_corrects : p.br == 13 && p.ec == 0 ≡ false
  pub wd_known : p.wd ≤ 2
  pub ln_known : p.ln ≤ 2
  pub ec_known : p.ec ≤ 2
  pub st_known : p.st ≤ 7
  pub huffman : has p.df (2 ^ 0) ≡ true
  pub coded : p.ec == 0 && (has p.df (2 ^ 3) || has p.df (2 ^ 4) || not (p.jp == 0)) ≡ false
  pub grey_first : (not (has p.jp (2 ^ 2)) || has p.jp (2 ^ 1)) ≡ true

dis_table : all_below 16 (λ i. leb (get_or dis_br_tab i 0) 5) ≡ true
unfolding all_below
dis_table = refl

abbrev formats : (two_dim uncompressed mmr : Bool) → ℕ
formats two_dim uncompressed mmr =
    or_if two_dim (2 ^ 1) (or_if uncompressed (2 ^ 2) (or_if mmr (2 ^ 3) (2 ^ 0)))

-- A test on four Booleans that holds for all of them.
abbrev every : (Bool → Bool → Bool → Bool → Bool) → Bool
every test =
    let two = λ (c d : Bool).
      test c d true true
      && (test c d true false && (test c d false true && test c d false false)) in
    two true true && (two true false && (two false true && two false false))

every_lem :
    (test : Bool → Bool → Bool → Bool → Bool)
    → every test ≡ true
    → (c d e f : Bool) → test c d e f ≡ true
every_lem test h true true true true = ground (arith, h)
every_lem test h true true true false = ground (arith, h)
every_lem test h true true false true = ground (arith, h)
every_lem test h true true false false = ground (arith, h)
every_lem test h true false true true = ground (arith, h)
every_lem test h true false true false = ground (arith, h)
every_lem test h true false false true = ground (arith, h)
every_lem test h true false false false = ground (arith, h)
every_lem test h false true true true = ground (arith, h)
every_lem test h false true true false = ground (arith, h)
every_lem test h false true false true = ground (arith, h)
every_lem test h false true false false = ground (arith, h)
every_lem test h false false true true = ground (arith, h)
every_lem test h false false true false = ground (arith, h)
every_lem test h false false false true = ground (arith, h)
every_lem test h false false false false = ground (arith, h)

-- MH is always there, MMR and JBIG only with error correction, and JPEG in colour only with grey.
abbrev huffman_first_test : (c d e j : Bool) → Bool
huffman_first_test c d e j =
    has (formats c d e) (2 ^ 0) && has (or_if j (2 ^ 4) (formats c d e)) (2 ^ 0)

huffman_first : every huffman_first_test ≡ true
huffman_first = refl

abbrev uncorrected_test : (c d e j : Bool) → Bool
uncorrected_test c d e j =
    not (has (formats c d (e && false)) (2 ^ 3) || has (formats c d (e && false)) (2 ^ 4))

uncorrected : every uncorrected_test ≡ true
uncorrected = refl

abbrev grey_needed_test : (c d e j : Bool) → Bool
grey_needed_test c d e j =
    let grey = or_if c (2 ^ 1) 0 in
    let jp = or_if (d && has grey (2 ^ 1)) (2 ^ 2) grey in not (has jp (2 ^ 2)) || has jp (2 ^ 1)

grey_needed : every grey_needed_test ≡ true
grey_needed = refl

module _ (on : ℕ → Bool) where
  offered_df : has (dis_df on) (2 ^ 0) ≡ true
  offered_df =
      let h = every_lem huffman_first_test huffman_first (on 16) (on 26) (on 31 && on 27) (on 78) in
      elim (Bool-cases (dis_ec on == 0)) [
        | inl off ↦ rw off (ground (arith, h))
        | inr corrected ↦ rw corrected (ground (arith, h))
      ]

  offered_jp : (not (has (dis_jp on) (2 ^ 2)) || has (dis_jp on) (2 ^ 1)) ≡ true
  offered_jp =
      let h = every_lem grey_needed_test grey_needed (on 68) (on 69) true true in
      elim (Bool-cases (dis_ec on == 0)) [ inl off ↦ rw off refl | inr corrected ↦ rw corrected h ]

  offered_coded :
      dis_ec on == 0 && (has (dis_df on) (2 ^ 3) || has (dis_df on) (2 ^ 4) || not (dis_jp on == 0))
      ≡ false
  offered_coded = elim (Bool-cases (on 27)) [
    | inr off ↦
        let h = every_lem uncorrected_test uncorrected (on 16) (on 26) (on 31) true in
        rw off (ground (arith, h))
    | inl corrected ↦ rw corrected (ground arith)
  ]

  decoded_dis-IsOffer : IsOffer (decoded_dis on)
  decoded_dis-IsOffer =
      let rate : get_or dis_br_tab _ 0 ≤ 5 = leb_lem _ _ (
        all_below_sound 16 _ (8 * num (on 11) + 4 * num (on 12) + 2 * num (on 13) + num (on 14))
          dis_table
          (omega (arith, num-le (on 11), num-le (on 12), num-le (on 13), num-le (on 14)))) in
      record {
        br_known = elim (Bool-cases (on 6 && on 27)) [
          | inl fast ↦ inr (rw fast refl)
          | inr slow ↦ inl (rw slow rate)
        ];
        v34_corrects = ground (arith, rate);
        wd_known = width-le on;
        ln_known = lines-le on;
        ec_known = ground arith;
        st_known = dcs_st-le on;
        huffman = offered_df;
        coded = offered_coded;
        grey_first = offered_jp;
      }

-- Whatever bits a DIS has, setFromDIS leaves capabilities that the code knows: MH among them, MMR, JBIG and
-- JPEG only with error correction, so also the rate of V.34, JPEG in colour only with grey, a rate of V.17 or
-- less or the one of V.34, and known codes of the page width and length and the scan line time.
pub set_from_dis-IsOffer : (m : List ℕ) → IsFaxBits m → IsOffer (set_from_dis m)
set_from_dis-IsOffer m is = rw (set_from_dis-decoded m is) (decoded_dis-IsOffer (is_bit_enabled m))
