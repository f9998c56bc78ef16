-- ===== src/Row/Cpack.antt =====
-- sgi2fax/row.c: colours packed into words of 8 bits a component.
use hyla_fax.Base.{
  ℕ, zero, suc, ◌+◌, ◌*◌, ◌/◌, ◌%◌, ◌^◌, ◌<◌, bit_and, bit_or, List, [], ◌∷◌, map, take, ◌≡◌, refl,
  ap, ◌∙◌, arith,
}
use hyla_fax.Base.Binary.{bit_or-above, bit_and-low_mask}
use hyla_fax.Row.Loops.{by_eight, by_eight-map, take-map}

-- The components of a colour, as the rows r, g, b and a have them at one place.
pub record Colour : Type 0 where
  pub r : ℕ
  pub g : ℕ
  pub b : ℕ
  pub a : ℕ

abbrev pub pack_rgb : Colour → ℕ
pack_rgb c = bit_or (bit_or c.r (c.g * 2 ^ 8)) (c.b * 2 ^ 16)

abbrev pub pack_rgba : Colour → ℕ
pack_rgba c = bit_or (bit_or (bit_or c.r (c.g * 2 ^ 8)) (c.b * 2 ^ 16)) (c.a * 2 ^ 24)

-- CPACKTORGB, which leaves the row a alone, and CPACKTORGBA.
abbrev pub unpack_rgb : ℕ → ℕ × ℕ × ℕ
unpack_rgb val = (bit_and val 0xff, bit_and (val / 2 ^ 8) 0xff, bit_and (val / 2 ^ 16) 0xff)

abbrev pub unpack_rgba : ℕ → Colour
unpack_rgba val = record {
  r = bit_and val 0xff;
  g = bit_and (val / 2 ^ 8) 0xff;
  b = bit_and (val / 2 ^ 16) 0xff;
  a = bit_and (val / 2 ^ 24) 0xff;
}

unfoldable pub bwtocpack : List ℕ → ℕ → List ℕ
bwtocpack b n = by_eight (λ x. 0x00010101 * x) b n

unfoldable pub rgbtocpack : List Colour → ℕ → List ℕ
rgbtocpack = by_eight pack_rgb

unfoldable pub rgbatocpack : List Colour → ℕ → List ℕ
rgbatocpack = by_eight pack_rgba

unfoldable pub cpacktorgb : List ℕ → ℕ → List (ℕ × ℕ × ℕ)
cpacktorgb = by_eight unpack_rgb

unfoldable pub cpacktorgba : List ℕ → ℕ → List Colour
cpacktorgba = by_eight unpack_rgba

-- Components of a byte each.
abbrev pub AreColours : List Colour → Type 0
AreColours [] = Unit {0}
AreColours (c ∷ cs) = ((c.r < 256) × (c.g < 256) × (c.b < 256) × (c.a < 256)) × AreColours cs

take-AreColours : (n : ℕ) (cs : List Colour) → AreColours cs → AreColours (take n cs)
take-AreColours zero cs h = tt
take-AreColours (suc n) [] h = h
take-AreColours (suc n) (c ∷ cs) h = (h.0, take-AreColours n cs h.1)

byte_mask : (v : ℕ) → bit_and v 0xff ≡ v % 256
byte_mask v = bit_and-low_mask 8 v

module _ (c : Colour) (lr : c.r < 256) (lg : c.g < 256) (lb : c.b < 256) (la : c.a < 256) where
  pack_rgb-sum : pack_rgb c ≡ c.b * 65536 + (c.g * 256 + c.r)
  pack_rgb-sum =
      ap (λ (t : ℕ). bit_or t (c.b * 2 ^ 16)) (bit_or-above 8 c.g c.r lr)
      ∙ bit_or-above 16 c.b (c.g * 256 + c.r) (omega arith)

  pack_rgba-sum : pack_rgba c ≡ c.a * 16777216 + (c.b * 65536 + (c.g * 256 + c.r))
  pack_rgba-sum =
      ap (λ (t : ℕ). bit_or t (c.a * 2 ^ 24)) pack_rgb-sum
      ∙ bit_or-above 24 c.a (c.b * 65536 + (c.g * 256 + c.r)) (omega arith)

  -- The components of a word whose low three bytes are those of the colour.
  module _ (word above : ℕ) (e : word ≡ above * 16777216 + (c.b * 65536 + (c.g * 256 + c.r))) where
    red : bit_and word 0xff ≡ c.r
    red = byte_mask word ∙ low
      where
        low : word % 256 ≡ c.r
        low = omega (arith, e)

    green : bit_and (word / 2 ^ 8) 0xff ≡ c.g
    green = byte_mask (word / 2 ^ 8) ∙ low
      where
        low : word / 2 ^ 8 % 256 ≡ c.g
        low = omega (arith, e)

    blue : bit_and (word / 2 ^ 16) 0xff ≡ c.b
    blue = byte_mask (word / 2 ^ 16) ∙ low
      where
        low : word / 2 ^ 16 % 256 ≡ c.b
        low = omega (arith, e)

  alpha : bit_and (pack_rgba c / 2 ^ 24) 0xff ≡ c.a
  alpha = byte_mask (pack_rgba c / 2 ^ 24) ∙ low
    where
      low : pack_rgba c / 2 ^ 24 % 256 ≡ c.a
      low = omega (arith, pack_rgba-sum)

  unpack-pack : unpack_rgba (pack_rgba c) ≡ c
  unpack-pack = λ i. record {
    r = red (pack_rgba c) c.a pack_rgba-sum i;
    g = green (pack_rgba c) c.a pack_rgba-sum i;
    b = blue (pack_rgba c) c.a pack_rgba-sum i;
    a = alpha i;
  }

  pack_rgb-word : pack_rgb c ≡ 0 * 16777216 + (c.b * 65536 + (c.g * 256 + c.r))
  pack_rgb-word = omega (arith, pack_rgb-sum)

  unpack-pack_rgb : unpack_rgb (pack_rgb c) ≡ (c.r, c.g, c.b)
  unpack-pack_rgb = λ i. (
    red (pack_rgb c) 0 pack_rgb-word i,
    green (pack_rgb c) 0 pack_rgb-word i,
    blue (pack_rgb c) 0 pack_rgb-word i,
  )

map-unpack : (cs : List Colour) → AreColours cs → map unpack_rgba (map pack_rgba cs) ≡ cs
map-unpack [] h = refl
map-unpack (c ∷ cs) h =
    let ((lr, lg, lb, la), later) = h in
    ap (λ (t : Colour). t ∷ map unpack_rgba (map pack_rgba cs)) (unpack-pack c lr lg lb la)
    ∙ ap (◌∷◌ c) (map-unpack cs later)

map-unpack_rgb :
    (cs : List Colour)
    → AreColours cs
    → map unpack_rgb (map pack_rgb cs) ≡ map (λ c. (c.r, c.g, c.b)) cs
map-unpack_rgb [] h = refl
map-unpack_rgb (c ∷ cs) h =
    let ((lr, lg, lb, la), later) = h in
    ap (λ (t : ℕ × ℕ × ℕ). t ∷ map unpack_rgb (map pack_rgb cs)) (unpack-pack_rgb c lr lg lb la)
    ∙ ap (◌∷◌ (c.r, c.g, c.b)) (map-unpack_rgb cs later)

-- Unpacking the words that rgbatocpack packs gives the first `n` colours back, for components of a
-- byte each.
pub cpacktorgba-rgbatocpack :
    (cs : List Colour) (n : ℕ) → AreColours cs → cpacktorgba (rgbatocpack cs n) n ≡ take n cs
unfolding cpacktorgba rgbatocpack
cpacktorgba-rgbatocpack cs n h =
    by_eight-map unpack_rgba (by_eight pack_rgba cs n) n
    ∙ ap (λ (ws : List ℕ). map unpack_rgba (take n ws)) (by_eight-map pack_rgba cs n)
    ∙ ap (map unpack_rgba) (take-map pack_rgba n cs)
    ∙ map-unpack (take n cs) (take-AreColours n cs h)

-- Unpacking the words that rgbtocpack packs gives the red, green and blue of the first `n` colours
-- back, for components of a byte each.
pub cpacktorgb-rgbtocpack :
    (cs : List Colour) (n : ℕ)
    → AreColours cs
    → cpacktorgb (rgbtocpack cs n) n ≡ map (λ c. (c.r, c.g, c.b)) (take n cs)
unfolding cpacktorgb rgbtocpack
cpacktorgb-rgbtocpack cs n h =
    by_eight-map unpack_rgb (by_eight pack_rgb cs n) n
    ∙ ap (λ (ws : List ℕ). map unpack_rgb (take n ws)) (by_eight-map pack_rgb cs n)
    ∙ ap (map unpack_rgb) (take-map pack_rgb n cs)
    ∙ map-unpack_rgb (take n cs) (take-AreColours n cs h)
