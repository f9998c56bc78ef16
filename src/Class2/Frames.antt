-- ===== src/Class2/Frames.antt =====
-- A DCS or DIS frame that is received: getDIS of HDLCFrame (faxd/HDLCFrame.c++), and setFromDCS or setFromDIS
-- (libhylafax/Class2Params.c++) of its bits, as Class1Modem calls them.
use hyla_fax.Base.{ℕ, zero, suc, ◌-◌, ◌<◌, List, [], ◌∷◌, get_or, take, drop, arith}
use hyla_fax.HdlcFrame.Buffer.{HdlcFrame, byte_of, get_frame_data_length, get_dis}
use hyla_fax.FaxParams.View.{IsFaxBits}
use hyla_fax.FaxParams.Setup.{setup_t30-IsFaxBits}
use hyla_fax.Class2.Session.{set_from_dcs, set_from_dis}
use hyla_fax.Class2.Received.{IsSettled, IsOffer, set_from_dcs-IsSettled, set_from_dis-IsOffer}

-- A part of a list of bytes has bytes only.
part_bytes :
    (n k : ℕ) (mem : List ℕ)
    → ((i : ℕ) → get_or mem i 0 < 256)
    → (i : ℕ) → get_or (take n (drop k mem)) i 0 < 256
part_bytes zero k mem bytes i = omega arith
part_bytes (suc n) zero [] bytes i = omega arith
part_bytes (suc n) zero (x ∷ mem) bytes zero = bytes 0
part_bytes (suc n) zero (x ∷ mem) bytes (suc i) = part_bytes n 0 mem (λ j. bytes (suc j)) i
part_bytes (suc n) (suc k) [] bytes i = omega arith
part_bytes (suc n) (suc k) (x ∷ mem) bytes i = part_bytes (suc n) k mem (λ j. bytes (suc j)) i

module _ (s : HdlcFrame) (bytes : (i : ℕ) → byte_of s i < 256) where
  get_dis-IsFaxBits : IsFaxBits (get_dis s)
  get_dis-IsFaxBits = setup_t30-IsFaxBits _ (part_bytes (get_frame_data_length s - 1) 3 s.mem bytes)

  -- Whatever bytes a DCS frame has, setFromDCS of its getDIS leaves settings that the code knows: one of the
  -- eight resolutions, a rate of at most 14400 bit/s, known codes of the other parameters, JPEG without
  -- another data format, and error correction where the data format is MMR, JBIG or JPEG.
  pub get_dis-IsSettled : IsSettled (set_from_dcs (get_dis s))
  get_dis-IsSettled = set_from_dcs-IsSettled (get_dis s) get_dis-IsFaxBits

  -- Whatever bytes a DIS frame has, setFromDIS of its getDIS leaves capabilities that the code knows: MH among
  -- them, MMR, JBIG, JPEG and the rate of V.34 only with error correction, JPEG in colour only with grey, and
  -- known codes of the other rates, the page width and length and the scan line time.
  pub get_dis-IsOffer : IsOffer (set_from_dis (get_dis s))
  get_dis-IsOffer = set_from_dis-IsOffer (get_dis s) get_dis-IsFaxBits
