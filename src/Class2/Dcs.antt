-- ===== src/Class2/Dcs.antt =====
-- The parameters that update and setFromDCS (libhylafax/Class2Params.c++) carry through a DCS.
use hyla_fax.Base.{
  ℕ, ◌≤◌, ◌<◌, Bool, true, false, not, ◌&&◌, ◌||◌, leb, ◌==◌, if◌then◌else◌, ◌≡◌, refl, ◌∙◌, arith,
}
use hyla_fax.Base.Checks.{all_below, all_below_sound}
use hyla_fax.Class2.Session.{Session, set_from_dcs}
use hyla_fax.Class2.Update.{update}
use hyla_fax.Class2.Enabled.{asked}
use hyla_fax.Class2.Decoded.{
  decoded, set_from_dcs-decoded, dcs_vr, dcs_br, dcs_wd, dcs_ln, dcs_st, dcs_jp, dcs_df, dcs_ec,
}
use hyla_fax.Class2.Signals.{num}
use hyla_fax.Class2.Received.{needs_ecm}
use hyla_fax.Class2.Signal.{signal, listed, update-signal, update-IsFaxBits}

-- The resolutions that a DCS tells apart.
abbrev pub is_resolution : ℕ → Bool
is_resolution vr =
    vr == 0 || vr == 0x01 || vr == 0x02 || vr == 0x04 || vr == 0x10 || vr == 0x20 || vr == 0x40

-- The parameters of a session, as settings and not as capabilities.
pub record IsSession (p : Session) : Type 0 where
  pub vr_known : is_resolution p.vr ≡ true
  pub br_known : p.br ≤ 5
  pub wd_known : p.wd ≤ 2
  pub ln_known : p.ln ≤ 2
  pub df_known : (leb p.df 4 && not (p.df == 2)) ≡ true
  pub ec_known : p.ec ≤ 2
  pub st_known : p.st ≤ 7
  pub jp_known : p.jp ≤ 2
  pub coded : needs_ecm p.df p.jp && p.ec == 0 ≡ false

-- What a DCS carries: no file transfer, and no data format beside JPEG.
abbrev pub carried : Session → Session
carried p = record p { df = if p.jp == 0 then p.df else 0; bf = 0 }

abbrev blank : Session
blank = record { vr = 0; br = 0; wd = 0; ln = 0; df = 0; ec = 0; bf = 0; st = 0; jp = 0 }

-- The bits of a DCS.
abbrev signalled : Session → ℕ → Bool
signalled p = signal p false

vr_checked :
    all_below 65 (λ v. not (is_resolution v) || dcs_vr (signalled (record blank { vr = v })) == v)
    ≡ true
unfolding all_below signal listed asked num
vr_checked = refl

br_checked : all_below 6 (λ v. dcs_br (signalled (record blank { br = v })) == v) ≡ true
unfolding all_below signal listed asked num
br_checked = refl

wd_checked : all_below 3 (λ v. dcs_wd (signalled (record blank { wd = v })) == v) ≡ true
unfolding all_below signal listed asked num
wd_checked = refl

ln_checked : all_below 3 (λ v. dcs_ln (signalled (record blank { ln = v })) == v) ≡ true
unfolding all_below signal listed asked num
ln_checked = refl

st_checked : all_below 8 (λ v. dcs_st (signalled (record blank { st = v })) == v) ≡ true
unfolding all_below signal listed asked num
st_checked = refl

-- The data format, the error correction and JPEG, which depend on each other.
abbrev coded_test : (df ec jp : ℕ) → Bool
coded_test df ec jp =
    let on = signalled (record blank { df = df; ec = ec; jp = jp }) in
    not (not (df == 2) && not (needs_ecm df jp && ec == 0))
    || (dcs_df on == (if jp == 0 then df else 0) && (dcs_ec on == ec && dcs_jp on == jp))

coded_checked :
    all_below 5 (λ df. all_below 3 (λ ec. all_below 3 (λ jp. coded_test df ec jp))) ≡ true
unfolding all_below signal listed asked num
coded_checked = refl

abbrev session : (vr br wd ln df ec st jp : ℕ) → Session
session vr br wd ln df ec st jp = record {
  vr = vr;
  br = br;
  wd = wd;
  ln = ln;
  df = df;
  ec = ec;
  bf = 0;
  st = st;
  jp = jp;
}

session_cong :
    {vr br wd ln df ec st jp vr' br' wd' ln' df' ec' st' jp' : ℕ}
    → vr ≡ vr'
    → br ≡ br'
    → wd ≡ wd'
    → ln ≡ ln'
    → df ≡ df'
    → ec ≡ ec'
    → st ≡ st'
    → jp ≡ jp'
    → session vr br wd ln df ec st jp ≡ session vr' br' wd' ln' df' ec' st' jp'
session_cong h1 h2 h3 h4 h5 h6 h7 h8 = cc

vr_bound : (v : ℕ) → is_resolution v ≡ true → v < 65
vr_bound v known = ground (arith, known)

same_code : (a b : ℕ) → (a == b) ≡ true → a ≡ b
same_code a b same = ground (arith, same)

-- A checked code, where its condition holds.
where_known : (known same : Bool) → (not known || same) ≡ true → known ≡ true → same ≡ true
where_known true same e h = e
where_known false same e h = absurd (ground (arith, h))

both_codes :
    (a a' b b' c c' : ℕ) → (a == a' && (b == b' && c == c')) ≡ true → (a ≡ a') × (b ≡ b') × (c ≡ c')
both_codes a a' b b' c c' same = (ground (arith, same), ground (arith, same), ground (arith, same))

coded_codes :
    (df ec jp : ℕ)
    → (leb df 4 && not (df == 2)) ≡ true
    → ec ≤ 2
    → jp ≤ 2
    → needs_ecm df jp && ec == 0 ≡ false
    → let on = signalled (record blank { df = df; ec = ec; jp = jp }) in
      (dcs_df on ≡ (if jp == 0 then df else 0)) × (dcs_ec on ≡ ec) × (dcs_jp on ≡ jp)
coded_codes df ec jp df_known ec_known jp_known coded =
    let test : coded_test df ec jp ≡ true =
      all_below_sound 3 _ jp
        (all_below_sound 3 _ ec (all_below_sound 5 _ df coded_checked (ground (arith, df_known)))
          (omega arith))
        (omega arith) in
    both_codes _ _ _ _ _ _ (
      where_known (not (df == 2) && not (needs_ecm df jp && ec == 0)) _ test
        (ground (arith, df_known, coded)))

-- setFromDCS of the bits that update sets.
update-decoded : (p : Session) → set_from_dcs (update p false) ≡ decoded (signalled p)
update-decoded p =
    let s = update-signal p false in
    set_from_dcs-decoded (update p false) (update-IsFaxBits p false)
    ∙ rw
        (
          s 11 refl,
          s 12 refl,
          s 13 refl,
          s 14 refl,
          s 15 refl,
          s 16 refl,
          s 17 refl,
          s 18 refl,
          s 19 refl,
          s 20 refl,
          s 21 refl,
          s 22 refl,
          s 23 refl,
          s 26 refl,
          s 27 refl,
          s 28 refl,
          s 31 refl,
          s 41 refl,
          s 42 refl,
          s 43 refl,
          s 44 refl,
          s 68 refl,
          s 69 refl,
          s 76 refl,
          s 77 refl,
          s 78 refl,
          s 79 refl,
        )
        refl

-- setFromDCS gets back from the bits that update sets for a DCS the vertical resolution, the bit rate up
-- to 14400 bit/s, the page width and length, the data format, the error correction, the scan line time and
-- the JPEG mode, for settings that T.30 can tell; with JPEG there is no other data format, and there is no
-- file transfer.
pub set_from_dcs-update : (p : Session) → IsSession p → set_from_dcs (update p false) ≡ carried p
unfolding signal listed asked num
set_from_dcs-update p is =
    let vr : dcs_vr (signalled p) ≡ p.vr = same_code _ _ (
      where_known _ _ (all_below_sound 65 _ p.vr vr_checked (vr_bound p.vr is.vr_known))
        is.vr_known) in
    let br : dcs_br (signalled p) ≡ p.br =
      same_code _ _ (all_below_sound 6 _ p.br br_checked (omega (arith, is.br_known))) in
    let wd : dcs_wd (signalled p) ≡ p.wd =
      same_code _ _ (all_below_sound 3 _ p.wd wd_checked (omega (arith, is.wd_known))) in
    let ln : dcs_ln (signalled p) ≡ p.ln =
      same_code _ _ (all_below_sound 3 _ p.ln ln_checked (omega (arith, is.ln_known))) in
    let st : dcs_st (signalled p) ≡ p.st =
      same_code _ _ (all_below_sound 8 _ p.st st_checked (omega (arith, is.st_known))) in
    let three = coded_codes p.df p.ec p.jp is.df_known is.ec_known is.jp_known is.coded in
    update-decoded p ∙ session_cong vr br wd ln three.0 three.1 st three.2
