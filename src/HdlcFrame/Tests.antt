-- ===== src/HdlcFrame/Tests.antt =====
-- Runs of the model of faxd/HDLCFrame.c++ on small frames.
use hyla_fax.Base.{
  ℕ, zero, suc, ◌<◌, true, false, List, [], ◌∷◌, replicate, get_or, length, ◌≡◌, refl, arith, inl,
}
use hyla_fax.Base.Lists.{length-replicate}
use hyla_fax.HdlcFrame.Buffer.{
  HdlcFrame, reset, contents, put_bytes, copy_frame, check_crc, get_data_word, copy_to, grow,
}
use hyla_fax.HdlcFrame.Content.{IsFrame, IsAppended, put_bytes-IsAppended}
use hyla_fax.HdlcFrame.Check.{put_each, put_fcs, put_fcs-check_crc}

-- Memory that holds 0xaa before it is written.
abbrev malloc : ℕ → List ℕ
malloc n = replicate n 0xaa

allocates : (n : ℕ) → length (malloc n) ≡ n
allocates n = length-replicate n 0xaa

-- A frame whose memory is small and full, so that it grows.
abbrev full : HdlcFrame
full = record {
  mem = 0xff ∷ 0x13 ∷ 0x84 ∷ [];
  next = 3;
  in_buf = false;
  amount_to_grow_by = 2;
  frame_overhead = 4;
  crc = 0xffff;
  ok = false;
}

full-IsFrame : IsFrame full
full-IsFrame = record { within = omega arith; own = inl refl; grows = omega arith }

grow_run :
    contents (put_bytes malloc full (1 ∷ 2 ∷ 3 ∷ 4 ∷ [])) ≡ 0xff ∷ 0x13 ∷ 0x84 ∷ 1 ∷ 2 ∷ 3 ∷ 4 ∷ []
unfolding put_bytes grow copy_to
grow_run = refl

word_run : get_data_word (put_bytes malloc full (1 ∷ 2 ∷ 3 ∷ 4 ∷ [])) ≡ 0x010203
unfolding get_data_word put_bytes grow copy_to
word_run = refl

put_bytes-IsAppended_example :
    IsAppended malloc allocates full (1 ∷ 2 ∷ []) (put_bytes malloc full (1 ∷ 2 ∷ []))
put_bytes-IsAppended_example = put_bytes-IsAppended malloc allocates full (1 ∷ 2 ∷ []) full-IsFrame

put_fcs-check_crc_example :
    check_crc (put_fcs malloc (put_each malloc (reset full) (0xff ∷ 0xc8 ∷ 0x21 ∷ []))) ≡ true
put_fcs-check_crc_example =
    put_fcs-check_crc malloc full (0xff ∷ 0xc8 ∷ 0x21 ∷ [])
      (omega arith, (omega arith, (omega arith, tt)))

-- A frame with four bytes of data.
abbrev short : HdlcFrame
short = record full { mem = 0xff ∷ 0x13 ∷ 0x84 ∷ 1 ∷ 2 ∷ 3 ∷ 4 ∷ []; next = 7 }

short_bytes : (i : ℕ) → get_or short.mem i 0 < 256
short_bytes zero = omega arith
short_bytes (suc zero) = omega arith
short_bytes (suc (suc zero)) = omega arith
short_bytes (suc (suc (suc zero))) = omega arith
short_bytes (suc (suc (suc (suc zero)))) = omega arith
short_bytes (suc (suc (suc (suc (suc zero))))) = omega arith
short_bytes (suc (suc (suc (suc (suc (suc zero)))))) = omega arith
short_bytes (suc (suc (suc (suc (suc (suc (suc i))))))) = omega arith

copy_run :
    contents (copy_frame malloc (0 ∷ 0 ∷ 0 ∷ 0 ∷ 0 ∷ 0 ∷ 0 ∷ 0 ∷ []) 0 short)
    ≡ 0xff ∷ 0x13 ∷ 0x84 ∷ 1 ∷ 2 ∷ 3 ∷ 4 ∷ []
unfolding copy_frame copy_to
copy_run = refl
