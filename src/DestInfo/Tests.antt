-- ===== src/DestInfo/Tests.antt =====
-- Runs of the model of faxd/DestInfo.c++ on a destination with two batches.
use hyla_fax.Base.{true, false, [], ◌∷◌, ◌≡◌, refl}
use hyla_fax.DestInfo.Active.{DestInfo, active, done, on_list, append_batch, unlink_batch}
use hyla_fax.DestInfo.Count.{IsDestInfo, IsMarked, active-IsMarked, done-IsMarked}

abbrev two : DestInfo
two = record { active_count = 2; running = 40 ∷ 80 ∷ []; ready_q = 7 ∷ []; sleep_q = [] }

two-IsDestInfo : IsDestInfo two
unfolding on_list
two-IsDestInfo = record { nodup = (refl, (refl, tt)); counted = refl }

two_run : done (active (active two 90) 40) 80 ≡ record two { running = 40 ∷ 90 ∷ [] }
unfolding active done on_list append_batch unlink_batch
two_run = refl

active-IsMarked_example : IsMarked two 90 true (active two 90)
active-IsMarked_example = active-IsMarked two 90 two-IsDestInfo

done-IsMarked_example : IsMarked two 40 false (done two 40)
done-IsMarked_example = done-IsMarked two 40 two-IsDestInfo
