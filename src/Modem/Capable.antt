-- ===== src/Modem/Capable.antt =====
-- A modem, a job and what the modem can do (faxd/Modem.h, faxd/Modem.c++). A modem is named by its address
-- `self`. A device identifier is the list of its characters.
use hyla_fax.Base.{
  ℕ, ◌^◌, bit_and, bit_or, Bool, true, false, not, ◌&&◌, ◌||◌, ltb, leb, ◌==◌, if◌then◌else◌, List,
  [], ◌∷◌,
}
use hyla_fax.Class2.Caps.{Class2Params}

pub data ModemState : Type 0 where
  down : ModemState
  ready : ModemState
  busy : ModemState

abbrev pub is_ready : ModemState → Bool
is_ready down = false
is_ready ready = true
is_ready busy = false

pub record Modem : Type 0 where
  pub self : ℕ
  pub dev_id : List ℕ
  pub state : ModemState
  pub canpoll : Bool
  pub priority : ℕ
  pub caps : Class2Params

-- The static members.
pub record Modems : Type 0 where
  pub list : List Modem
  pub modems_ready : ℕ

-- What of a job the choice of a modem reads; `jci_modem` is the modem of the job control information.
pub record Job : Type 0 where
  pub willpoll : Bool
  pub pagewidth : ℕ
  pub pagelength : ℕ
  pub resolution : ℕ
  pub device : List ℕ
  pub jci_modem : List ℕ

abbrev pub same_text : List ℕ → List ℕ → Bool
same_text [] [] = true
same_text [] (d ∷ ds) = false
same_text (c ∷ cs) [] = false
same_text (c ∷ cs) (d ∷ ds) = c == d && same_text cs ds

-- `caps.wd & BIT(n)`, and the like, as a test.
abbrev has_any : (value mask : ℕ) → Bool
has_any value mask = not (bit_and value mask == 0)

abbrev bit : ℕ → ℕ
bit n = 2 ^ n

unfoldable pub supports_page_width_in_mm : Modem → (w : ℕ) → Bool
supports_page_width_in_mm m w =
    if leb w 218
    then has_any m.caps.wd (bit 0)
    else if leb w 258
    then has_any m.caps.wd (bit 1)
    else if leb w 306
    then has_any m.caps.wd (bit 2)
    else false

unfoldable pub supports_page_width_in_pixels : Modem → (w : ℕ) → Bool
supports_page_width_in_pixels m w =
    if leb w 1744
    then has_any m.caps.wd (bit 0)
    else if leb w 2064
    then has_any m.caps.wd (bit 1)
    else if leb w 2448
    then has_any m.caps.wd (bit 2)
    else false

unfoldable pub supports_v_res : Modem → (res : ℕ) → Bool
supports_v_res m res =
    if leb 75 res && ltb res 120
    then true
    else if leb 150 res && ltb res 250
    then has_any m.caps.vr 1 || has_any m.caps.vr 0x10
    else if leb 250 res && ltb res 350
    then has_any m.caps.vr 0x40
    else if leb 350 res && ltb res 500
    then has_any m.caps.vr 2 || has_any m.caps.vr 0x20 || has_any m.caps.vr 4
    else false

abbrev pub supports_vr : Modem → (r : ℕ) → Bool
supports_vr m r = has_any m.caps.vr r

abbrev pub supports_2d : Modem → Bool
supports_2d m = has_any m.caps.df (bit 1)

abbrev pub supports_mmr : Modem → Bool
supports_mmr m = has_any m.caps.df (bit 3)

abbrev pub supports_jbig : Modem → Bool
supports_jbig m = has_any m.caps.df (bit 4)

unfoldable pub supports_page_length_in_mm : Modem → (l : ℕ) → Bool
supports_page_length_in_mm m l =
    if ltb 270 l && leb l 330
    then has_any m.caps.ln (bit_or (bit 0) (bit 2))
    else if ltb 330 l && leb l 390
    then has_any m.caps.ln (bit_or (bit 1) (bit 2))
    else has_any m.caps.ln (bit 2)

unfoldable pub is_capable : Modem → Job → Bool
is_capable m job =
    if job.willpoll && not m.canpoll
    then false
    else if not (job.pagewidth == 0) && not (supports_page_width_in_mm m job.pagewidth)
    then false
    else if not (job.pagelength == 0) && not (supports_page_length_in_mm m job.pagelength)
    then false
    else if not (job.resolution == 0) && not (supports_v_res m job.resolution)
    then false
    else true
