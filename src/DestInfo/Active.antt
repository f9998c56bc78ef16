-- ===== src/DestInfo/Active.antt =====
-- DestInfo (faxd/DestInfo.h, faxd/DestInfo.c++): the batches that are active to a destination. A batch
-- is named by its address; `running` is the chain of the batches from the member of that name on, along
-- dnext. The queues readyQ and sleepQ are lists of the jobs on them.
use hyla_fax.Base.{
  ℕ, ◌+◌, ◌-◌, ◌%◌, ◌^◌, Bool, true, false, not, ◌==◌, if◌then◌else◌, List, [], ◌∷◌, length,
}

pub record DestInfo : Type 0 where
  pub active_count : ℕ
  pub running : List ℕ
  pub ready_q : List ℕ
  pub sleep_q : List ℕ

abbrev pub new_dest_info : DestInfo
new_dest_info = record { active_count = 0; running = []; ready_q = []; sleep_q = [] }

abbrev pub get_ready_count : DestInfo → ℕ
get_ready_count d = length d.ready_q

abbrev pub get_sleep_count : DestInfo → ℕ
get_sleep_count d = length d.sleep_q

abbrev is_nil : List ℕ → Bool
is_nil [] = true
is_nil (j ∷ js) = false

abbrev pub is_empty : DestInfo → Bool
is_empty d =
    if not (is_nil d.ready_q)
    then false
    else if not (is_nil d.sleep_q)
    then false
    else d.active_count == 0

-- The loops along dnext.
unfoldable pub on_list : List ℕ → (batch : ℕ) → Bool
on_list [] batch = false
on_list (bp ∷ bps) batch = if bp == batch then true else on_list bps batch

abbrev pub is_active : DestInfo → (batch : ℕ) → Bool
is_active d batch = on_list d.running batch

unfoldable pub append_batch : List ℕ → (batch : ℕ) → List ℕ
append_batch [] batch = batch ∷ []
append_batch (bp ∷ bps) batch = if bp == batch then bp ∷ bps else bp ∷ append_batch bps batch

unfoldable pub unlink_batch : List ℕ → (batch : ℕ) → List ℕ
unlink_batch [] batch = []
unlink_batch (bp ∷ bps) batch = if bp == batch then bps else bp ∷ unlink_batch bps batch

-- active; the count is an unsigned short.
unfoldable pub active : DestInfo → (batch : ℕ) → DestInfo
active d batch = if on_list d.running batch then d else record d {
  running = append_batch d.running batch;
  active_count = (d.active_count + 1) % 2 ^ 16;
}

unfoldable pub done : DestInfo → (batch : ℕ) → DestInfo
done d batch =
    if on_list d.running batch
    then record d {
      running = unlink_batch d.running batch;
      active_count = (d.active_count + 2 ^ 16 - 1) % 2 ^ 16;
    }
    else d
