-- ===== src/Class2/Decoded.antt =====
-- setFromDCS and setFromDIS (libhylafax/Class2Params.c++) as functions of single bits of a DCS or DIS.
use hyla_fax.Base.{
  ℕ, ◌+◌, ◌*◌, ◌^◌, Bool, true, false, ◌&&◌, ◌||◌, ◌==◌, if◌then◌else◌, List, get_or, ◌≡◌, refl,
}
use hyla_fax.FaxParams.Bits.{is_bit_enabled}
use hyla_fax.FaxParams.View.{IsFaxBits}
use hyla_fax.Class2.Session.{
  Session, has, or_if, dis_vr_tab, dis_wd_tab, dis_ln_tab, dis_st_tab, dcs_br_tab,
  set_from_dis_words, set_from_dcs_words, set_from_dcs, set_from_dis, dis_br_tab,
}
use hyla_fax.Class2.Signals.{num, words-Reads}

module _ (on : ℕ → Bool) where
  abbrev pub dcs_vr : ℕ
  dcs_vr =
      if on 44
      then (if on 43
          then 0x04
          else if on 42
          then 0x40
          else if on 41
          then 0x20
          else if on 15
          then 0x10
          else 0x08)
      else if on 42
      then 0x40
      else if on 43
      then 0x04
      else if on 41
      then 0x02
      else get_or dis_vr_tab (num (on 15)) 0

  abbrev pub dcs_br : ℕ
  dcs_br = get_or dcs_br_tab (8 * num (on 11) + 4 * num (on 12) + 2 * num (on 13) + num (on 14)) 0

  abbrev pub dcs_wd : ℕ
  dcs_wd = if on 76 || on 77 then 0 else get_or dis_wd_tab (2 * num (on 17) + num (on 18)) 0

  abbrev pub dcs_ln : ℕ
  dcs_ln = if on 76 || on 77 then 2 else get_or dis_ln_tab (2 * num (on 19) + num (on 20)) 0

  abbrev pub dcs_st : ℕ
  dcs_st = get_or dis_st_tab (4 * num (on 21) + 2 * num (on 22) + num (on 23)) 0

  abbrev pub dcs_jp : ℕ
  dcs_jp =
      let jp1 : ℕ = if on 68 then 1 else 0 in if on 69 then (if jp1 == 1 then 2 else jp1) else jp1

  -- The data format of Group 3 or 4.
  abbrev pub group_df : ℕ
  group_df =
      let d =
        or_if (on 16) (2 ^ 1) (or_if (on 26) (2 ^ 2) (or_if (on 31 && on 27) (2 ^ 3) (2 ^ 0))) in
      if has d (2 ^ 3) then 3 else if has d (2 ^ 1) then 1 else 0

  abbrev pub dcs_df : ℕ
  dcs_df = if dcs_jp == 0 then (if on 79 then 4 else if on 78 then 4 else group_df) else 0

  abbrev pub dcs_ec : ℕ
  dcs_ec =
      let ec : ℕ = if on 27 then (if on 28 then 1 else 2) else 0 in
      if ec == 0 && (dcs_df == 3 || dcs_df == 4 || dcs_jp == 1 || dcs_jp == 2) then 2 else ec

  abbrev pub decoded : Session
  decoded = record {
    vr = dcs_vr;
    br = dcs_br;
    wd = dcs_wd;
    ln = dcs_ln;
    df = dcs_df;
    ec = dcs_ec;
    bf = 0;
    st = dcs_st;
    jp = dcs_jp;
  }

pub set_from_dcs-decoded : (m : List ℕ) → IsFaxBits m → set_from_dcs m ≡ decoded (is_bit_enabled m)
unfolding set_from_dcs set_from_dcs_words set_from_dis_words
set_from_dcs-decoded m is =
    let r = words-Reads m is in
    rw
      (
        r.fine, r.two_dim, r.uncompressed, r.ecm, r.short_frames, r.mmr, r.r8, r.dpi300, r.r16,
        r.inches, r.resolution, r.rate, r.width, r.lines, r.scan,
      )
      refl

-- setFromDIS, bit by bit.
module _ (on : ℕ → Bool) where
  abbrev pub dis_vr : ℕ
  dis_vr =
      let vr1 = or_if (on 45 && on 41) 0x02 (get_or dis_vr_tab (num (on 15)) 0) in
      let vr2 = or_if (on 45 && on 43) 0x04 vr1 in
      let vr3 = or_if (on 44) 0x08 vr2 in
      let vr4 = or_if (on 44 && on 15) 0x10 vr3 in
      or_if (on 42) 0x40 (or_if (on 44 && on 41) 0x20 vr4)

  abbrev pub dis_br : ℕ
  dis_br =
      if on 6 && on 27
      then 13
      else get_or dis_br_tab (8 * num (on 11) + 4 * num (on 12) + 2 * num (on 13) + num (on 14)) 0

  abbrev pub dis_ec : ℕ
  dis_ec = if on 27 then (if on 7 then 1 else 2) else 0

  abbrev pub dis_df : ℕ
  dis_df =
      let mmr = or_if (on 31 && on 27) (2 ^ 3) (2 ^ 0) in
      let d = or_if (on 16) (2 ^ 1) (or_if (on 26) (2 ^ 2) mmr) in
      if dis_ec == 0 then d else or_if (on 78) (2 ^ 4) d

  abbrev pub dis_jp : ℕ
  dis_jp =
      let grey = or_if (on 68) (2 ^ 1) 0 in
      if dis_ec == 0 then 0 else or_if (on 69 && has grey (2 ^ 1)) (2 ^ 2) grey

  abbrev pub decoded_dis : Session
  decoded_dis = record {
    vr = dis_vr;
    br = dis_br;
    wd = get_or dis_wd_tab (2 * num (on 17) + num (on 18)) 0;
    ln = get_or dis_ln_tab (2 * num (on 19) + num (on 20)) 0;
    df = dis_df;
    ec = dis_ec;
    bf = 0;
    st = dcs_st on;
    jp = dis_jp;
  }

-- A choice between two parameter blocks, field by field.
chosen_fields :
    (c : Bool) (p : Session) (df jp : ℕ)
    → (if c then p else record p { df = df; jp = jp })
      ≡ record p { df = if c then p.df else df; jp = if c then p.jp else jp }
chosen_fields true p df jp = refl
chosen_fields false p df jp = refl

pub set_from_dis-decoded :
    (m : List ℕ) → IsFaxBits m → set_from_dis m ≡ decoded_dis (is_bit_enabled m)
unfolding set_from_dis set_from_dis_words
set_from_dis-decoded m is =
    let r = words-Reads m is in
    rw
      (
        r.v8, r.framesize, r.fine, r.two_dim, r.uncompressed, r.ecm, r.mmr, r.r8, r.dpi300, r.r16,
        r.inches, r.metres, r.resolution, r.rate, r.width, r.lines, r.scan,
      )
      (chosen_fields _ _ _ _)
