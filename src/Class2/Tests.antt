-- ===== src/Class2/Tests.antt =====
-- Runs of the model of libhylafax/Class2Params.c++ on concrete parameters.
use hyla_fax.Base.{
  ℕ, ◌<◌, true, false, ltb, List, [], ◌∷◌, replicate, some, ◌≡◌, refl, arith, inl, inr, Bool-cases,
}
use hyla_fax.Base.Checks.{all_below, all_below_sound, ltb→lt}
use hyla_fax.Base.Lists.{get_or-after, length-replicate}
use hyla_fax.FaxParams.Bits.{
  setup_t30_words, setup_t30, setup_bytes, set_bit, set_extend_bits, set_extend_down,
  unset_extend_bits, unset_extend_down, is_bit_enabled,
}
use hyla_fax.HdlcFrame.Buffer.{HdlcFrame, byte_of, get_dis}
use hyla_fax.Class2.Caps.{Class2Params, encode_caps, decode_caps, passed, decode_caps-encode_caps}
use hyla_fax.Class2.Session.{
  Session, set_from_dis_words, set_from_dis, set_from_dcs_words, set_from_dcs,
}
use hyla_fax.Class2.Update.{update, set_all, set_ecm}
use hyla_fax.Class2.Received.{IsSettled, IsOffer}
use hyla_fax.Class2.Frames.{get_dis-IsSettled, get_dis-IsOffer}
use hyla_fax.Class2.Dcs.{IsSession, carried}
use hyla_fax.Class2.Sending.{agreed, agreed-carried}

-- Fine resolution, the rates up to 14400, A4 of any length, MH and MR, error correction, every scan time.
abbrev modem : Class2Params
modem = record { vr = 3; br = 0x3f; wd = 1; ln = 7; df = 3; ec = 6; bf = 0; st = 0xff }

encode_caps_run : encode_caps modem ≡ 0xc0f84703
unfolding encode_caps
encode_caps_run = refl

decode_caps-encode_caps_example : decode_caps (encode_caps modem) ≡ passed modem
decode_caps-encode_caps_example = decode_caps-encode_caps modem

-- The rates above 7200 and the error correction are lost.
decode_caps_run :
    decode_caps 0xc0f84703
    ≡ record { vr = 3; br = 7; wd = 1; ln = 7; df = 3; ec = 0; bf = 0; st = 3 }
unfolding decode_caps
decode_caps_run = refl

-- JBIG is taken for error correction.
jbig_run :
    decode_caps (encode_caps (record modem { df = 19; ec = 0 }))
    ≡ record { vr = 3; br = 7; wd = 1; ln = 7; df = 19; ec = 1; bf = 0; st = 3 }
unfolding decode_caps encode_caps
jbig_run = refl

-- 200 x 400 dpi, 12000 bit/s, A3, B4, MMR with error correction, 40 ms for a line.
abbrev page : Session
page = record { vr = 0x20; br = 4; wd = 2; ln = 1; df = 3; ec = 2; bf = 1; st = 6; jp = 0 }

update_run : update page false ≡ 0 ∷ 0x54 ∷ 0x6b ∷ 0x23 ∷ 1 ∷ 0x90 ∷ replicate 10 0
unfolding update set_all set_ecm setup_t30_words set_bit set_extend_bits set_extend_down
    unset_extend_bits unset_extend_down
update_run = refl

page-IsSession : IsSession page
page-IsSession = record {
  vr_known = refl;
  br_known = omega arith;
  wd_known = omega arith;
  ln_known = omega arith;
  df_known = refl;
  ec_known = omega arith;
  st_known = omega arith;
  jp_known = omega arith;
  coded = refl;
}

-- A rate above 14400 bit/s is decoded as 2400 bit/s, and MMR without error correction as MH.
fast_run :
    set_from_dcs (update (record page { br = 13; ec = 0 }) false)
    ≡ record page { br = 0; df = 0; ec = 0; bf = 0 }
unfolding set_from_dcs set_from_dcs_words set_from_dis_words update set_all set_ecm setup_t30_words
    set_bit set_extend_bits set_extend_down unset_extend_bits unset_extend_down is_bit_enabled
fast_run = refl

-- A received frame: a DCS with JBIG and without error correction.
abbrev jbig_frame : HdlcFrame
jbig_frame = record {
  mem = 0xff ∷ 0x13 ∷ 0x83 ∷ 0 ∷ 0x46 ∷ 0x19 ∷ 1 ∷ 1 ∷ 1 ∷ 1 ∷ 1 ∷ 1 ∷ 4 ∷ 0 ∷ 0xaa ∷ 0xaa ∷ [];
  next = 16;
  in_buf = true;
  amount_to_grow_by = 2048;
  frame_overhead = 4;
  crc = 0xffff;
  ok = true;
}

jbig_frame_checked : all_below 16 (λ j. ltb (byte_of jbig_frame j) 256) ≡ true
unfolding all_below
jbig_frame_checked = refl

jbig_frame_bytes : (i : ℕ) → byte_of jbig_frame i < 256
jbig_frame_bytes i = elim (Bool-cases (ltb i 16)) [
  | inl inside ↦ ltb→lt _ _ (
      all_below_sound 16 (λ j. ltb (byte_of jbig_frame j) 256) i jbig_frame_checked
        (ground (arith, inside)))
  | inr outside ↦ rw (get_or-after jbig_frame.mem i 0 (ground (arith, outside))) (omega arith)
]

-- The missing error correction is put right.
jbig_frame_run :
    set_from_dcs (get_dis jbig_frame)
    ≡ record { vr = 1; br = 5; wd = 0; ln = 2; df = 4; ec = 2; bf = 0; st = 1; jp = 0 }
unfolding set_from_dcs set_from_dcs_words set_from_dis_words setup_t30 setup_bytes is_bit_enabled
jbig_frame_run = refl

get_dis-IsSettled_example : IsSettled (set_from_dcs (get_dis jbig_frame))
get_dis-IsSettled_example = get_dis-IsSettled jbig_frame jbig_frame_bytes

get_dis-IsOffer_example : IsOffer (set_from_dis (get_dis jbig_frame))
get_dis-IsOffer_example = get_dis-IsOffer jbig_frame jbig_frame_bytes

-- The memory of a frame, and of what malloc gives.
abbrev memory : ℕ → List ℕ
memory n = replicate n 0xaa

agreed-carried_example :
    agreed memory (memory 2048) (memory 2048) 0x83 0 0 true page ≡ some (carried page)
agreed-carried_example =
    agreed-carried memory (memory 2048) (memory 2048) 0x83 0 0 true page
      (λ n. length-replicate {A = ℕ} n 0xaa) (length-replicate {A = ℕ} 2048 0xaa)
      (length-replicate {A = ℕ} 2048 0xaa) page-IsSession
