-- ===== src/Class2/Caps.antt =====
-- encodeCaps and decodeCaps of Class2Params (libhylafax/Class2Params.c++): the capabilities of a modem in
-- the 32-bit word that faxgetty sends to faxq. The masks are those of libhylafax/class2.h, with the bit
-- numbers BR_2400 to BR_14400 or-ed as encodeCaps and decodeCaps or them.
use hyla_fax.Base.{
  ℕ, ◌+◌, ◌-◌, ◌*◌, ◌/◌, ◌%◌, ◌^◌, ◌<◌, bit_and, bit_or, ◌==◌, if◌then◌else◌, ◌≡◌, refl, ◌∙◌, arith,
}
use hyla_fax.Base.Binary.{bit_and-low_mask, bit_or-above, and_halves}

pub record Class2Params : Type 0 where
  pub vr : ℕ
  pub br : ℕ
  pub wd : ℕ
  pub ln : ℕ
  pub df : ℕ
  pub ec : ℕ
  pub bf : ℕ
  pub st : ℕ

-- The constructor, which gives every member `(u_int) -1`.
abbrev pub new_params : Class2Params
new_params = record {
  vr = 2 ^ 32 - 1;
  br = 2 ^ 32 - 1;
  wd = 2 ^ 32 - 1;
  ln = 2 ^ 32 - 1;
  df = 2 ^ 32 - 1;
  ec = 2 ^ 32 - 1;
  bf = 2 ^ 32 - 1;
  st = 2 ^ 32 - 1;
}

-- `v << n` and `v >> n` on the 32-bit word.
abbrev shl : ℕ → ℕ → ℕ
shl v n = (v * 2 ^ n) % 2 ^ 32

abbrev shr : ℕ → ℕ → ℕ
shr v n = v / 2 ^ n

abbrev vr_all : ℕ
vr_all = 0x7f

-- BR_2400|BR_4800|BR_7200|BR_9600|BR_12000|BR_14400, which are 0 to 5.
abbrev br_caps : ℕ
br_caps = bit_or (bit_or (bit_or (bit_or (bit_or 0 1) 2) 3) 4) 5

abbrev wd_all : ℕ
wd_all = 2 ^ 3 - 1

abbrev ln_all : ℕ
ln_all = 2 ^ 3 - 1

-- `BIT(DF_JBIG+1)-1 ^ BIT(DF_2DMRUNCOMP)`.
abbrev df_all : ℕ
df_all = 31 - 4

abbrev ec_disable : ℕ
ec_disable = 0

abbrev ec_enable_64 : ℕ
ec_enable_64 = 1

abbrev ec_all : ℕ
ec_all = 2 ^ 5 - 1

abbrev bf_all : ℕ
bf_all = 3

abbrev st_all : ℕ
st_all = 2 ^ 8 - 1

-- `EC_ALL != 0`, which binds more tightly than `&`.
abbrev ec_all_set : ℕ
ec_all_set = if ec_all == 0 then 0 else 1

unfoldable pub encode_caps : Class2Params → ℕ
encode_caps p =
    let w1 = bit_and p.vr vr_all in
    let w2 = bit_or w1 (shl (bit_and p.br br_caps) 8) in
    let w3 = bit_or w2 (shl (bit_and p.wd wd_all) 14) in
    let w4 = bit_or w3 (shl (bit_and p.ln ln_all) 19) in
    let w5 = bit_or w4 (shl (bit_and p.df df_all) 22) in
    let w6 = bit_or w5 (shl (bit_and p.ec ec_disable) 26) in
    let w7 = bit_or w6 (shl (if bit_and p.ec ec_all_set == 0 then 0 else 1) 27) in
    let w8 = bit_or w7 (shl (bit_and p.bf bf_all) 28) in bit_or w8 (shl (bit_and p.st st_all) 30)

unfoldable pub decode_caps : ℕ → Class2Params
decode_caps v = record {
  vr = bit_and (shr v 0) vr_all;
  br = bit_and (shr v 8) br_caps;
  wd = bit_and (shr v 14) wd_all;
  ln = bit_and (shr v 19) ln_all;
  df = bit_and (shr v 22) df_all;
  ec = bit_and (shr v 26) (bit_or ec_disable ec_enable_64);
  bf = bit_and (shr v 28) bf_all;
  st = bit_and (shr v 30) st_all;
}

-- The capabilities that pass through the word.
abbrev pub passed : Class2Params → Class2Params
passed p = record {
  vr = p.vr % 128;
  br = p.br % 8;
  wd = p.wd % 8;
  ln = p.ln % 8;
  df = bit_and p.df df_all;
  ec = p.df / 16 % 2;
  bf = p.bf % 4;
  st = p.st % 4;
}

mask_7 : (a : ℕ) → bit_and a vr_all ≡ a % 128
mask_7 a = bit_and-low_mask 7 a

mask_3 : (a : ℕ) → bit_and a 7 ≡ a % 8
mask_3 a = bit_and-low_mask 3 a

mask_2 : (a : ℕ) → bit_and a 3 ≡ a % 4
mask_2 a = bit_and-low_mask 2 a

mask_1 : (a : ℕ) → bit_and a 1 ≡ a % 2
mask_1 a = bit_and-low_mask 1 a

mask_8 : (a : ℕ) → bit_and a st_all ≡ a % 256
mask_8 a = bit_and-low_mask 8 a

mask_0 : (a : ℕ) → bit_and a 0 ≡ 0
mask_0 a = bit_and-low_mask 0 a ∙ omega arith

-- The mask of the data formats, which leaves out the uncompressed mode.
mask_df : (a : ℕ) → bit_and a 27 ≡ a % 4 + (a / 8 % 4) * 8
mask_df a =
    let (h0, p0) = and_halves a 27 in
    let (h1, p1) = and_halves (a / 2) 13 in
    let (h2, p2) = and_halves (a / 2 / 2) 6 in
    omega (arith, h0, p0, h1, p1, h2, p2, mask_2 (a / 2 / 2 / 2))

-- A field above the ones of the word so far.
or_field :
    (k q r w : ℕ) → r ≡ w → w < 2 ^ k → q * 2 ^ k < 2 ^ 32 → bit_or r (shl q k) ≡ w + q * 2 ^ k
or_field k q r w same below fits =
    let e : shl q k ≡ q * 2 ^ k = omega (arith, fits) in
    rw (e, same) (bit_or-above k q w below ∙ omega arith)

-- The word is the sum of its fields; of the scan line times two bits are left.
sum_of_fields :
    (vr br wd ln df ec bf st : ℕ)
    → vr < 128
    → br < 8
    → wd < 8
    → ln < 8
    → df < 32
    → ec < 2
    → bf < 4
    → bit_or
        (bit_or
          (bit_or
            (bit_or
              (bit_or (bit_or (bit_or (bit_or vr (shl br 8)) (shl wd 14)) (shl ln 19)) (shl df 22))
              (shl 0 26))
            (shl ec 27))
          (shl bf 28))
        (shl st 30)
      ≡ vr
        + br * 2 ^ 8
        + wd * 2 ^ 14
        + ln * 2 ^ 19
        + df * 2 ^ 22
        + ec * 2 ^ 27
        + bf * 2 ^ 28
        + (st % 4) * 2 ^ 30
sum_of_fields vr br wd ln df ec bf st h1 h2 h3 h4 h5 h6 h7 =
    let w1 = or_field 8 br vr vr refl (omega arith) (omega arith) in
    let w2 = or_field 14 wd _ _ w1 (omega arith) (omega arith) in
    let w3 = or_field 19 ln _ _ w2 (omega arith) (omega arith) in
    let w4 = or_field 22 df _ _ w3 (omega arith) (omega arith) in
    let w5 =
      or_field 27 ec _ _ (or_field 27 0 _ _ w4 (omega arith) (omega arith)) (omega arith)
        (omega arith) in
    let w6 = or_field 28 bf _ _ w5 (omega arith) (omega arith) in
    let e : shl st 30 ≡ shl (st % 4) 30 = omega arith in
    rw e (or_field 30 (st % 4) _ _ w6 (omega arith) (omega arith) ∙ omega arith)

abbrev fields : (vr br wd ln df ec bf st : ℕ) → Class2Params
fields vr br wd ln df ec bf st = record {
  vr = vr;
  br = br;
  wd = wd;
  ln = ln;
  df = df;
  ec = ec;
  bf = bf;
  st = st;
}

fields_cong :
    {vr br wd ln df ec bf st vr' br' wd' ln' df' ec' bf' st' : ℕ}
    → vr ≡ vr'
    → br ≡ br'
    → wd ≡ wd'
    → ln ≡ ln'
    → df ≡ df'
    → ec ≡ ec'
    → bf ≡ bf'
    → st ≡ st'
    → fields vr br wd ln df ec bf st ≡ fields vr' br' wd' ln' df' ec' bf' st'
fields_cong h1 h2 h3 h4 h5 h6 h7 h8 = cc

-- A word of such fields is taken apart into them; the bit of the error correction is the one of JBIG.
decode_fields :
    (vr br wd ln df ec bf st : ℕ)
    → vr < 128
    → br < 8
    → wd < 8
    → ln < 8
    → df < 32
    → bit_and df 27 ≡ df
    → ec < 2
    → bf < 4
    → st < 4
    → decode_caps (
        vr
        + br * 2 ^ 8
        + wd * 2 ^ 14
        + ln * 2 ^ 19
        + df * 2 ^ 22
        + ec * 2 ^ 27
        + bf * 2 ^ 28
        + st * 2 ^ 30)
      ≡ fields vr br wd ln df (df / 16) bf st
unfolding decode_caps
decode_fields vr br wd ln df ec bf st h1 h2 h3 h4 h5 masked h6 h7 h8 =
    fields_cong (mask_7 _ ∙ omega arith) (mask_3 _ ∙ omega arith) (mask_3 _ ∙ omega arith)
      (mask_3 _ ∙ omega arith) (mask_df _ ∙ omega (arith, masked, mask_df df))
      (mask_1 _ ∙ omega arith) (mask_2 _ ∙ omega arith) (mask_8 _ ∙ omega arith)

-- Of any parameters, decodeCaps gets back from encodeCaps the vertical resolutions, the page widths and
-- lengths, the data formats and the binary file transfers under their masks; of the bit rates the three
-- lowest bits, of the scan line times the two lowest; and in place of the error correction the JBIG bit of
-- the data formats.
pub decode_caps-encode_caps : (p : Class2Params) → decode_caps (encode_caps p) ≡ passed p
unfolding encode_caps
decode_caps-encode_caps p =
    let vr = bit_and p.vr vr_all in
    let br = bit_and p.br br_caps in
    let wd = bit_and p.wd wd_all in
    let ln = bit_and p.ln ln_all in
    let df = bit_and p.df df_all in
    let ec : ℕ = if bit_and p.ec ec_all_set == 0 then 0 else 1 in
    let bf = bit_and p.bf bf_all in
    let st = bit_and p.st st_all in
    let h1 : vr < 128 = omega (arith, mask_7 p.vr) in
    let h2 : br < 8 = omega (arith, mask_3 p.br) in
    let h3 : wd < 8 = omega (arith, mask_3 p.wd) in
    let h4 : ln < 8 = omega (arith, mask_3 p.ln) in
    let h5 : df < 32 = omega (arith, mask_df p.df) in
    let h6 : ec < 2 = ground (arith, mask_1 p.ec) in
    let h7 : bf < 4 = omega (arith, mask_2 p.bf) in
    let masked : bit_and df 27 ≡ df = omega (arith, mask_df p.df, mask_df df) in
    rw (mask_0, sum_of_fields vr br wd ln df ec bf st h1 h2 h3 h4 h5 h6 h7)
      (decode_fields vr br wd ln df ec bf (st % 4) h1 h2 h3 h4 h5 masked h6 h7 (omega arith)
        ∙ fields_cong (mask_7 _) (mask_3 _) (mask_3 _) (mask_3 _) refl (omega (arith, mask_df p.df))
            (mask_2 _) (omega (arith, mask_8 p.st)))
