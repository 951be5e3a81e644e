-- ===== src/Content/Examples.antt =====
-- tgdcfs/core/repository/impl/file_content/__init__.py: reads of a file of two parts.
use tgdcfs.Base.{
  zero, suc, ℕ, ◌≡◌, refl, true, false, List, [], ◌∷◌, ◌++◌, arith, take, drop, All, pos, negsuc,
  sym, append-nil, ap, ◌∙◌, take-append-drop,
}
use tgdcfs.Base.Result.{ok}
use tgdcfs.Content.{
  Bytes, Piece, Candidate, Layout, map_range, download_part, stream_layouts, clamp_end, seek, cut,
  map_from, stream_layout, chain, sources_of, first_ids,
}
use tgdcfs.Content.Range.{range, bytes_of, map_range-bytes, part_at}
use tgdcfs.Content.Total.{map_range-total}
use tgdcfs.Content.Failover.{IsHonest, Serves, download_part-Serves, download_part-available}
use tgdcfs.Content.Layouts.{Holds, stream_layouts-Serves}

abbrev parts : List Bytes
parts = (1 ∷ 2 ∷ 3 ∷ []) ∷ (4 ∷ 5 ∷ []) ∷ []

-- Delivers everything, in one chunk.
abbrev sound : Bytes → Candidate
sound part = record {
  message_id = 7;
  is_primary = false;
  download = λ begin end. record { chunks = range part begin end ∷ []; raised = false };
}

-- Delivers one byte and then raises.
abbrev breaking : Bytes → Candidate
breaking part = record {
  message_id = 8;
  is_primary = true;
  download = λ begin end. record { chunks = take 1 (range part begin end) ∷ []; raised = true };
}

sound-IsHonest : (part : Bytes) → IsHonest part (sound part)
sound-IsHonest part = record {
  left = λ begin end. [];
  cut = λ begin end.
      sym (append-nil (range part begin end ++ []) ∙ append-nil (range part begin end));
  full = λ begin end h. refl;
}

breaking-IsHonest : (part : Bytes) → IsHonest part (breaking part)
breaking-IsHonest part = record {
  left = λ begin end. drop 1 (range part begin end);
  cut = λ begin end. sym (
      ap (λ (b : Bytes). b ++ drop 1 (range part begin end))
        (append-nil (take 1 (range part begin end)))
      ∙ take-append-drop 1 (range part begin end));
  full = λ begin end h. cc;
}

abbrev layout : Layout
layout = record {
  part_sizes = 3 ∷ 2 ∷ [];
  candidates =
      (breaking (1 ∷ 2 ∷ 3 ∷ []) ∷ sound (1 ∷ 2 ∷ 3 ∷ []) ∷ []) ∷ (breaking (4 ∷ 5 ∷ []) ∷ []) ∷ [];
}

-- The first layout breaks in its second part; another one of a single part goes on from there.
abbrev replica : Layout
replica = record { part_sizes = 5 ∷ []; candidates = (sound (1 ∷ 2 ∷ 3 ∷ 4 ∷ 5 ∷ []) ∷ []) ∷ [] }

goes_on :
    stream_layouts (layout ∷ replica ∷ []) 1 (negsuc 0)
    ≡ record { served = 2 ∷ 3 ∷ 4 ∷ 5 ∷ []; raised = false; primary_dead = true }
unfolding stream_layouts stream_layout map_range map_from seek cut chain download_part first_ids
    clamp_end
goes_on = refl

each_is_good : (i : ℕ) → All (IsHonest (part_at parts i)) (sources_of layout i)
each_is_good zero = (breaking-IsHonest (1 ∷ 2 ∷ 3 ∷ []), (sound-IsHonest (1 ∷ 2 ∷ 3 ∷ []), tt))
each_is_good (suc zero) = (breaking-IsHonest (4 ∷ 5 ∷ []), tt)
each_is_good (suc (suc i)) = tt

one_is_good :
    (i : ℕ) → All (IsHonest (part_at ((1 ∷ 2 ∷ 3 ∷ 4 ∷ 5 ∷ []) ∷ []) i)) (sources_of replica i)
one_is_good zero = (sound-IsHonest (1 ∷ 2 ∷ 3 ∷ 4 ∷ 5 ∷ []), tt)
one_is_good (suc i) = tt

layout-Holds : Holds (1 ∷ 2 ∷ 3 ∷ 4 ∷ 5 ∷ []) layout
layout-Holds = record { parts = parts; whole = refl; sized = refl; honest = each_is_good }

replica-Holds : Holds (1 ∷ 2 ∷ 3 ∷ 4 ∷ 5 ∷ []) replica
replica-Holds = record {
  parts = (1 ∷ 2 ∷ 3 ∷ 4 ∷ 5 ∷ []) ∷ [];
  whole = refl;
  sized = refl;
  honest = one_is_good;
}

stream_layouts-Serves_example :
    Serves
      (range (1 ∷ 2 ∷ 3 ∷ 4 ∷ 5 ∷ []) 1 (clamp_end 5 (negsuc 0)))
      (stream_layouts (layout ∷ replica ∷ []) 1 (negsuc 0))
stream_layouts-Serves_example =
    stream_layouts-Serves (1 ∷ 2 ∷ 3 ∷ 4 ∷ 5 ∷ []) layout (replica ∷ []) 1 (negsuc 0) layout-Holds
      (replica-Holds, tt)

download_part-Serves_example :
    Serves
      (range (4 ∷ 5 ∷ []) 0 1)
      (download_part (breaking (4 ∷ 5 ∷ []) ∷ sound (4 ∷ 5 ∷ []) ∷ []) 0 1)
download_part-Serves_example =
    download_part-Serves (4 ∷ 5 ∷ []) (breaking (4 ∷ 5 ∷ []) ∷ sound (4 ∷ 5 ∷ []) ∷ []) 0 1
      (breaking-IsHonest (4 ∷ 5 ∷ []), (sound-IsHonest (4 ∷ 5 ∷ []), tt))

download_part-available_example :
    (download_part (breaking (4 ∷ 5 ∷ []) ∷ sound (4 ∷ 5 ∷ []) ∷ []) 0 1).raised ≡ false
download_part-available_example =
    download_part-available (breaking (4 ∷ 5 ∷ []) ∷ []) [] (sound (4 ∷ 5 ∷ [])) 0 1
      (λ begin end. refl)

mapped :
    map_range (7 ∷ 8 ∷ []) (3 ∷ 2 ∷ []) (pos 5) (pos 1) (negsuc 0)
    ≡ ok (
        record { part = 0; message_id = 7; begin = 1; end = 2 }
        ∷ record { part = 1; message_id = 8; begin = 0; end = 1 }
        ∷ [])
unfolding map_range map_from seek cut clamp_end
mapped = refl

map_range-bytes_example :
    bytes_of parts (
      record { part = 0; message_id = 7; begin = 1; end = 2 }
      ∷ record { part = 1; message_id = 8; begin = 0; end = 1 }
      ∷ [])
    ≡ range (1 ∷ 2 ∷ 3 ∷ 4 ∷ 5 ∷ []) 1 (clamp_end 5 (negsuc 0))
map_range-bytes_example = map_range-bytes (7 ∷ 8 ∷ []) parts (pos 1) (negsuc 0) _ mapped

map_range-total_example :
    (qs : List Piece) × (map_range (7 ∷ 8 ∷ []) (3 ∷ 2 ∷ []) (pos 5) (pos 1) (pos 3) ≡ ok qs)
map_range-total_example =
    map_range-total (7 ∷ 8 ∷ []) (3 ∷ 2 ∷ []) 1 (pos 3) refl (omega arith)
      (unfold clamp_end in omega arith)
