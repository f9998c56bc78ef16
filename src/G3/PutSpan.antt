-- ===== src/G3/PutSpan.antt =====
-- putspan writes a sequence of codes that reads back as the span.
use mathlib.Core.List.{append_assoc}
use mathlib.Core.Path.{subst}
use native.Mathlib.Nat.{le_refl}
use hyla_fax.Base.{
  ℕ, zero, suc, ◌+◌, ◌-◌, ◌*◌, ◌/◌, ◌≤◌, ◌<◌, Bool, ltb, some, List, ◌++◌, ◌≡◌, ap, sym, ◌∙◌, arith,
  inl, inr, Bool-cases,
}
use hyla_fax.Base.Checks.{ltb→lt, lt→ltb}
use hyla_fax.G3.Codes.{Tableentry}
use hyla_fax.G3.Encoder.{Encoder, putcode, sub_run, entry_at, put_short, put_long, putspan}
use hyla_fax.G3.Stream.{IsWf, Extends, Extends-trans}
use hyla_fax.G3.PutBits.{put_bits-Extends}
use hyla_fax.G3.Decode.{code_bits, decode_run}
use hyla_fax.G3.Tables.{IsCode, IsTable}

decode_terminating :
    {tab : List Tableentry} {te : Tableentry} {r : ℕ} (fuel : ℕ) (rest : List Bool)
    → IsCode tab te r
    → r < 64
    → decode_run (suc fuel) tab (code_bits te ++ rest) ≡ some (r, rest)
unfolding decode_run
decode_terminating {r} fuel rest c lt = rw (c.decodes rest, lt→ltb r 64 lt)

decode_make_up :
    {tab : List Tableentry} {te : Tableentry} {r q : ℕ} (fuel : ℕ) (cs rest : List Bool)
    → IsCode tab te r
    → 64 ≤ r
    → decode_run fuel tab (cs ++ rest) ≡ some (q, rest)
    → decode_run (suc fuel) tab (code_bits te ++ cs ++ rest) ≡ some (r + q, rest)
unfolding decode_run
decode_make_up {te} {r} fuel cs rest c ge h =
    rw (append_assoc (code_bits te) cs rest, c.decodes (cs ++ rest), h) (ground arith)

sub_run-IsCode :
    {tab : List Tableentry} {te : Tableentry} {r : ℕ} (span : ℕ)
    → IsCode tab te r
    → sub_run span te ≡ span - r
sub_run-IsCode span c = rw c.is_entry

module _ (unmap : ℕ → ℕ) where
  -- `s'` is `s` with codes of `tab` behind it that read back as `span`.
  pub record Writes (tab : List Tableentry) (s : Encoder) (span : ℕ) (s' : Encoder) : Type 0 where
    pub codes : List Bool
    pub extends : Extends unmap s codes s'
    pub reads :
        (fuel : ℕ) (rest : List Bool)
        → span + 2 ≤ fuel
        → decode_run fuel tab (codes ++ rest) ≡ some (span, rest)

  module _ (tab : List Tableentry) (table : IsTable tab) where
    putcode-Extends :
        (s : Encoder) {te : Tableentry} {r : ℕ}
        → IsWf s
        → ((b : ℕ) → b < 256 → unmap (s.bitmap b) ≡ b)
        → IsCode tab te r
        → Extends unmap s (code_bits te) (putcode s te)
    unfolding putcode
    putcode-Extends s {te} {r} w inverse c =
        subst (λ t. Extends unmap s (code_bits t) (putcode s t)) (sym c.is_entry)
          (put_bits-Extends unmap s c.code c.length w inverse c.small c.fits)

    put_terminating :
        (s : Encoder) (span : ℕ)
        → IsWf s
        → ((b : ℕ) → b < 256 → unmap (s.bitmap b) ≡ b)
        → span < 64
        → Writes tab s span (putcode s (entry_at tab span))
    put_terminating s span w inverse lt = record {
      codes = code_bits (entry_at tab span);
      extends = putcode-Extends s w inverse (table.terminating span lt);
      reads = reads;
    }
      where
        reads :
            (fuel : ℕ) (rest : List Bool)
            → span + 2 ≤ fuel
            → decode_run fuel tab (code_bits (entry_at tab span) ++ rest) ≡ some (span, rest)
        reads zero rest enough = absurd (omega arith)
        reads (suc fuel) rest enough = decode_terminating fuel rest (table.terminating span lt) lt

    -- A make-up code in front.
    put_make_up :
        (s : Encoder) (span r : ℕ) {te : Tableentry} {s' : Encoder}
        → IsWf s
        → ((b : ℕ) → b < 256 → unmap (s.bitmap b) ≡ b)
        → IsCode tab te r
        → 64 ≤ r
        → r ≤ span
        → Writes tab (putcode s te) (span - r) s'
        → Writes tab s span s'
    put_make_up s span r {te} {s'} w inverse c ge le later = record {
      codes = code_bits te ++ later.codes;
      extends = Extends-trans (putcode-Extends s w inverse c) later.extends;
      reads = reads;
    }
      where
        reads :
            (fuel : ℕ) (rest : List Bool)
            → span + 2 ≤ fuel
            → decode_run fuel tab (code_bits te ++ later.codes ++ rest) ≡ some (span, rest)
        reads zero rest enough = absurd (omega arith)
        reads (suc fuel) rest enough =
            decode_make_up fuel later.codes rest c ge (later.reads fuel rest (omega arith))
            ∙ ap (λ (t : ℕ). some (t, rest)) (omega arith)

    put_short-Writes :
        (s : Encoder) (span : ℕ)
        → IsWf s
        → ((b : ℕ) → b < 256 → unmap (s.bitmap b) ≡ b)
        → span < 2624
        → Writes tab s span (put_short s span tab)
    unfolding put_short
    put_short-Writes s span w inverse lt = elim (Bool-cases (ltb span 64)) [
      | inl small ↦ rw small (put_terminating s span w inverse (ltb→lt span 64 small))
      | inr large ↦ rw large (two_codes (ground arith))
    ]
      where
        two_codes :
            64 ≤ span
            → Writes tab s span (
                putcode
                  (putcode s (entry_at tab (63 + span / 64)))
                  (entry_at tab (sub_run span (entry_at tab (63 + span / 64)))))
        two_codes ge =
            let c = table.make_up (span / 64) (omega arith) (omega arith) in
            let first = putcode-Extends s w inverse c in
            rw (sub_run-IsCode span c) (
              put_make_up s span (64 * (span / 64)) w inverse c (omega arith) (omega arith) (
                put_terminating (putcode s (entry_at tab (63 + span / 64)))
                  (span - 64 * (span / 64)) first.wf (rw first.same_map inverse) (omega arith)))

    put_long-Writes :
        (fuel : ℕ) (s : Encoder) (span : ℕ)
        → IsWf s
        → ((b : ℕ) → b < 256 → unmap (s.bitmap b) ≡ b)
        → span ≤ fuel
        → Writes tab s span (put_long fuel s span tab)
    unfolding put_long
    put_long-Writes zero s span w inverse enough = put_short-Writes s span w inverse (omega arith)
    put_long-Writes (suc fuel) s span w inverse enough = elim (Bool-cases (ltb span 2624)) [
      | inl short ↦ rw short (put_short-Writes s span w inverse (ltb→lt span 2624 short))
      | inr long ↦
          let c = table.make_up 40 (omega arith) (omega arith) in
          let first = putcode-Extends s w inverse c in
          let ge : 2624 ≤ span = ground arith in
          rw (long, sub_run-IsCode span c)
            (put_make_up s span 2560 w inverse c (omega arith) (omega arith) (
              put_long-Writes fuel (putcode s (entry_at tab 103)) (span - 2560) first.wf
                (rw first.same_map inverse) (omega arith)))
    ]

    -- For a table of codes, putspan extends the stream of a well-formed encoder by codes that a
    -- reader of the table takes for exactly the span, whatever follows them.
    pub putspan-Writes :
        (s : Encoder) (span : ℕ)
        → IsWf s
        → ((b : ℕ) → b < 256 → unmap (s.bitmap b) ≡ b)
        → Writes tab s span (putspan s span tab)
    unfolding putspan
    putspan-Writes s span w inverse = put_long-Writes span s span w inverse (le_refl span)
