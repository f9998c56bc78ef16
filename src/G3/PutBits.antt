-- ===== src/G3/PutBits.antt =====
-- G3Encoder::putBits (faxd/G3Encoder.c++): what it appends to the bit stream.
use mathlib.Core.List.{append_assoc, append-nil}
use native.Mathlib.Nat.{mod-lt, pow-le-pow_right, mul-div_cancel, div-lt_iff_lt-mul, suc-mul}
use native.Mathlib.Nat.{mul_assoc, add-mul, le_refl, le_trans}
use mathlib.Core.Path.{subst}
use hyla_fax.Base.Checks.{ltb→lt, ==_iff, all_below, all_below_sound}
use hyla_fax.Base.{
  ℕ, zero, suc, ◌+◌, ◌-◌, ◌*◌, ◌/◌, ◌%◌, ◌^◌, ◌≤◌, ◌<◌, bit_and, bit_or, Bool, true, ltb, ◌==◌,
  List, [], ◌∷◌, ◌++◌, get_or, ◌≡◌, refl, ap, sym, ◌∙◌, arith, inl, inr, Bool-cases,
}
use hyla_fax.Base.Binary.{
  bits, bits_split, bits-mod, pow-add, bits_fields, bit_or-shifted, bit_and-low_mask,
}
use hyla_fax.G3.Encoder.{Encoder, flush_bits, fill_byte, put_last, put_rounds, put_bits, mask}
use hyla_fax.G3.Stream.{
  IsWf, byte_bits, byte_bits-append, stream, Extends, Extends-trans, two_pow_pos, stream_high,
  mul_le, byte_fits, byte_digits,
}

top_bits-lt : (v n k : ℕ) → k < n → v < 2 ^ n → v / 2 ^ (n - k) < 2 ^ k
top_bits-lt v n k h fits =
    let whole : k + (n - k) ≡ n = omega arith in
    (div-lt_iff_lt-mul (two_pow_pos (n - k))).1
      (omega (arith, pow-add k (n - k), ap (λ (t : ℕ). 2 ^ t) whole))

module _ (unmap : ℕ → ℕ) where
  fill_byte-Extends :
      (s : Encoder) (v n : ℕ) (w : IsWf s)
      → ((b : ℕ) → b < 256 → unmap (s.bitmap b) ≡ b)
      → s.bit < n
      → v < 2 ^ n
      → Extends unmap s (bits s.bit (v / 2 ^ (n - s.bit))) (fill_byte s v n)
  unfolding fill_byte stream
  fill_byte-Extends s v n w inverse h fits =
      let x = v / 2 ^ (n - s.bit) in
      let x_fits = top_bits-lt v n s.bit h fits in
      let sum : bit_or s.data_ x ≡ w.high * 2 ^ s.bit + x =
        rw w.data_eq (bit_or-shifted s.bit w.high x x_fits) in
      record {
        wf = record {
          high = 0;
          bit_pos = omega arith;
          bit-le = omega arith;
          data_eq = refl;
          high-lt = omega arith;
        };
        extends =
            rw
              (
                sum,
                byte_bits-append unmap s.buf (s.bitmap (w.high * 2 ^ s.bit + x) ∷ []),
                inverse (w.high * 2 ^ s.bit + x) (byte_fits s w x x_fits),
                byte_digits s w x x_fits,
                append-nil,
              )
              (sym (append_assoc (byte_bits unmap s.buf) (bits (8 - s.bit) w.high) (bits s.bit x))
                ∙ ap (λ (t : List Bool). t ++ bits s.bit x) (sym (stream_high unmap s w)));
        same_map = refl;
        same_2d = refl;
        same_g4 = refl;
      }

  mask_table : all_below 9 (λ n. get_or mask n 0 == 2 ^ n - 1) ≡ true
  unfolding all_below
  mask_table = refl

  mask_at : (n : ℕ) → n ≤ 8 → get_or mask n 0 ≡ 2 ^ n - 1
  mask_at n h = (==_iff _ _).0 (all_below_sound 9 _ n mask_table (omega arith))

  -- Behind the loop the top of the byte in progress is `high` and the `n` low bits of `v`.
  module _ (s : Encoder) (v n : ℕ) (w : IsWf s) (h : n ≤ s.bit) where
    abbrev high' : ℕ
    high' = w.high * 2 ^ n + v % 2 ^ n

    abbrev last_data : ℕ
    last_data = bit_or s.data_ (bit_and v (get_or mask n 0) * 2 ^ (s.bit - n))

    split_pow : 2 ^ s.bit ≡ 2 ^ n * 2 ^ (s.bit - n)
    split_pow =
        let whole : s.bit ≡ n + (s.bit - n) = omega arith in
        ap (λ (t : ℕ). 2 ^ t) whole ∙ pow-add n (s.bit - n)

    low_fits : v % 2 ^ n * 2 ^ (s.bit - n) < 2 ^ s.bit
    low_fits = rw split_pow (
        omega (
          arith,
          mul_le (suc (v % 2 ^ n)) (2 ^ n) (2 ^ (s.bit - n)) (mod-lt v (two_pow_pos n)),
          suc-mul (v % 2 ^ n) (2 ^ (s.bit - n)),
          two_pow_pos (s.bit - n),
        ))

    free : 8 - (s.bit - n) ≡ 8 - s.bit + n
    free = omega (arith, w.bit-le)

    last_data-eq : last_data ≡ high' * 2 ^ (s.bit - n)
    last_data-eq =
        rw
          (
            mask_at n (omega (arith, w.bit-le)),
            bit_and-low_mask n v,
            w.data_eq,
            bit_or-shifted s.bit w.high (v % 2 ^ n * 2 ^ (s.bit - n)) low_fits,
          )
          (omega (
            arith,
            split_pow,
            ap (λ (t : ℕ). w.high * t) split_pow,
            mul_assoc w.high (2 ^ n) (2 ^ (s.bit - n)),
            add-mul (w.high * 2 ^ n) (v % 2 ^ n) (2 ^ (s.bit - n)),
          ))

    high'-lt : high' < 2 ^ (8 - (s.bit - n))
    high'-lt =
        rw (free, pow-add (8 - s.bit) n)
          (omega (
            arith,
            mul_le (suc w.high) (2 ^ (8 - s.bit)) (2 ^ n) w.high-lt,
            suc-mul w.high (2 ^ n),
            mod-lt v (two_pow_pos n),
          ))

    high'-bits : bits (8 - (s.bit - n)) high' ≡ bits (8 - s.bit) w.high ++ bits n v
    high'-bits = rw (
      free,
      bits_fields n w.high (v % 2 ^ n) (mod-lt v (two_pow_pos n)) (8 - s.bit),
      bits-mod n v,
    )

    last_stream : byte_bits unmap s.buf ++ bits (8 - (s.bit - n)) high' ≡ stream unmap s ++ bits n v
    last_stream =
        rw (high'-bits, stream_high unmap s w)
          (sym (append_assoc (byte_bits unmap s.buf) (bits (8 - s.bit) w.high) (bits n v)))

    part_stream :
        stream unmap (record s { data_ = last_data; bit = s.bit - n }) ≡ stream unmap s ++ bits n v
    unfolding stream
    part_stream =
        ap (λ (t : List Bool). byte_bits unmap s.buf ++ t)
          (ap (bits (8 - (s.bit - n)))
            (rw last_data-eq (mul-div_cancel high' (two_pow_pos (s.bit - n)))))
        ∙ last_stream

    full_stream :
        ((b : ℕ) → b < 256 → unmap (s.bitmap b) ≡ b)
        → s.bit - n ≡ 0
        → stream unmap (flush_bits (record s { data_ = last_data; bit = s.bit - n }))
          ≡ stream unmap s ++ bits n v
    unfolding stream flush_bits
    full_stream inverse full =
        let e : last_data ≡ high' = last_data-eq ∙ rw full (omega arith) in
        let byte : high' < 256 = rw full at high'-lt in
        append-nil _
        ∙ byte_bits-append unmap s.buf (s.bitmap last_data ∷ [])
        ∙ ap (λ (t : List Bool). byte_bits unmap s.buf ++ t)
            (append-nil _
              ∙ ap (bits 8) (inverse last_data (rw e byte) ∙ e)
              ∙ ap (λ (k : ℕ). bits (8 - k) high') (sym full))
        ∙ last_stream

  put_last-Extends :
      (s : Encoder) (v n : ℕ) (w : IsWf s)
      → ((b : ℕ) → b < 256 → unmap (s.bitmap b) ≡ b)
      → n ≤ s.bit
      → Extends unmap s (bits n v) (put_last s v n)
  unfolding put_last
  put_last-Extends s v n w inverse h = elim (Bool-cases (s.bit - n == 0)) [
    | inl full ↦ rw full (flushed ((==_iff _ _).0 full))
    | inr part ↦ rw part (record {
      wf = record {
        high = high' s v n w h;
        bit_pos = ground arith;
        bit-le = omega (arith, w.bit-le);
        data_eq = last_data-eq s v n w h;
        high-lt = high'-lt s v n w h;
      };
      extends = part_stream s v n w h;
      same_map = refl;
      same_2d = refl;
      same_g4 = refl;
    })
  ]
    where
      flushed :
          s.bit - n ≡ 0
          → Extends unmap s
              (bits n v)
              (flush_bits (record s { data_ = last_data s v n w h; bit = s.bit - n }))
      flushed full = record {
        wf = record {
          high = 0;
          bit_pos = omega arith;
          bit-le = omega arith;
          data_eq = refl;
          high-lt = omega arith;
        };
        extends = full_stream s v n w h inverse full;
        same_map = refl;
        same_2d = refl;
        same_g4 = refl;
      }

  fill_then :
      (s : Encoder) (v n : ℕ) (w : IsWf s) {t : Encoder}
      → s.bit < n
      → Extends unmap s (bits s.bit (v / 2 ^ (n - s.bit))) (fill_byte s v n)
      → Extends unmap (fill_byte s v n) (bits (n - s.bit) v) t
      → Extends unmap s (bits n v) t
  fill_then s v n w {t} h filled rest =
      let whole : s.bit + (n - s.bit) ≡ n = omega arith in
      subst (λ bs. Extends unmap s bs t)
        (sym (bits_split s.bit (n - s.bit) v) ∙ ap (λ (k : ℕ). bits k v) whole)
        (Extends-trans filled rest)

  fits_after :
      (s : Encoder) (v n : ℕ) → v < 256 → (fill_byte s v n).bit < n - s.bit → v < 2 ^ (n - s.bit)
  unfolding fill_byte
  fits_after s v n small more =
      le_trans small (pow-le-pow_right {n = 2} (omega arith) {i = 8} (omega arith))

  put_rounds-Extends :
      (fuel : ℕ) (s : Encoder) (v n : ℕ)
      → IsWf s
      → ((b : ℕ) → b < 256 → unmap (s.bitmap b) ≡ b)
      → n ≤ fuel
      → v < 256
      → (s.bit < n → v < 2 ^ n)
      → Extends unmap s (bits n v) (put_rounds fuel s v n)
  unfolding put_rounds
  put_rounds-Extends zero s v n w inverse enough small fits =
      put_last-Extends s v n w inverse (omega arith)
  put_rounds-Extends (suc fuel) s v n w inverse enough small fits =
      elim (Bool-cases (ltb s.bit n)) [
        | inl more ↦
            let h = ltb→lt s.bit n more in
            let filled = fill_byte-Extends s v n w inverse h (fits h) in
            let rest =
              put_rounds-Extends fuel (fill_byte s v n) v (n - s.bit) filled.wf
                (rw filled.same_map inverse) (omega (arith, w.bit_pos)) small
                (fits_after s v n small) in
            rw more (fill_then s v n w h filled rest)
        | inr done ↦ rw done (put_last-Extends s v n w inverse (ground arith))
      ]

  -- putBits appends exactly the `n` low bits of `v`, the most significant first, to the stream of
  -- a well-formed encoder, and leaves it well formed with its settings unchanged: for a value
  -- below 256 that fits in `n` bits, where `unmap` undoes the encoder's byte table.
  pub put_bits-Extends :
      (s : Encoder) (v n : ℕ)
      → IsWf s
      → ((b : ℕ) → b < 256 → unmap (s.bitmap b) ≡ b)
      → v < 256
      → v < 2 ^ n
      → Extends unmap s (bits n v) (put_bits s v n)
  unfolding put_bits
  put_bits-Extends s v n w inverse small fits =
      put_rounds-Extends n s v n w inverse (le_refl n) small (λ _. fits)
