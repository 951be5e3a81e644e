-- ===== src/Upload/Examples.antt =====
-- tgdcfs/reqres.py: reads of a small stream.
use tgdcfs.Base.{◌≡◌, refl, some, [], ◌∷◌}
use tgdcfs.Upload.{read_stream}

-- Two chunks, of which the second is cut where the declared size ends.
cuts_at_size :
    read_stream 9
      (record { stream = (1 ∷ 2 ∷ []) ∷ (3 ∷ 4 ∷ []) ∷ []; size = 3; buffer = []; read_size = 0 })
    ≡ some (1 ∷ 2 ∷ 3 ∷ [], record { stream = []; size = 3; buffer = 4 ∷ []; read_size = 3 })
unfolding read_stream
cuts_at_size = refl
