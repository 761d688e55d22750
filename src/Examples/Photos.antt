-- ===== src/Examples/Photos.antt =====
-- A photo of five bytes, over the protocol.
use pipop_core.Base.{◌≡◌, refl, [], ◌∷◌, ok, List, arith}
use pipop_core.Types.{PtpOperationCode}
use pipop_core.Net.{Wire, Arrival}
use pipop_core.Net.Reading.{fed}
use pipop_core.Transport.Send.Packets.{writing}
use pipop_core.Commands.World.{World}
use pipop_core.Commands.World.Outcomes.{Ensures}
use pipop_core.Commands.Resume.Started.{Whole, Ready}
use pipop_core.Commands.Transfer.Ends.{IsHonestTo, download_from-Ends}
use pipop_core.Commands.Transfer.Honest.{Served-IsHonestTo}
use pipop_core.Commands.Transfer.Attempts.{
  Store, absent, Changes, Shows, succeeds, attempt, none_made, and_again, Attempts-Changes,
}
use pipop_core.Commands.Response.Blocks.{Block, block_arrivals, blocks_arrivals}
use pipop_core.Commands.Client.{get_object_info}
use pipop_core.Commands.Client.Answers.{response_bytes, after_exchange}
use pipop_core.Commands.Client.Objects.{get_object_info_answered}
use pipop_core.Commands.Transfer.{
  Fetch, default_chunk_config, next_chunk_size, download_from, download_photo,
}
use pipop_core.Commands.Transfer.Resumed.{Stored}
use pipop_core.Commands.Transfer.Sent.{asked, Sends, sends_nothing, sends_chunk, Sends-Served}
use pipop_core.Commands.Transfer.Photo.{download_photo_sent}
use pipop_core.Examples.Data.{network_order, counting, quiet}
use pipop_core.Examples.Objects.{
  picture, places, described, four, open_client, picture_fits, places_fit, titles-Found,
  described_short,
}
use pipop_core.Examples.Downloads.{
  object, name, save_path, valid, checkpoint, before, empty-IsSound,
}

-- The object in one block.
abbrev blocks : List Block
blocks = (8, object) ∷ []

abbrev chunk : List Arrival
chunk = blocks_arrivals network_order blocks (block_arrivals network_order (8, []) [])

abbrev asking : Wire
asking = fed (writing quiet []) (response_bytes network_order 0 7 described chunk)

abbrev described_wire : Wire
described_wire =
    after_exchange network_order counting PtpOperationCode.get_object_info (5 ∷ []) chunk quiet

describing :
    get_object_info network_order counting open_client 5 asking ≡ (ok picture, described_wire)
describing =
    get_object_info_answered network_order counting open_client 0 65 66 0 0 0 7 0 picture places
      four chunk quiet (omega arith) (omega arith) (omega arith) picture_fits places_fit
      titles-Found described_short

sending :
    Sends network_order counting 5 open_client.config object default_chunk_config 0 described_wire
unfolding next_chunk_size
sending =
    sends_chunk 0 blocks []
      (after_exchange network_order counting PtpOperationCode.get_object_info (5 ∷ []) [] quiet)
      (omega arith) ((omega arith, omega arith, λ e. omega arith), tt) refl sends_nothing

download_photo_sent_example :
    Ensures
      (λ stats w'. Stored save_path name refl valid object w' × (stats.downloaded_bytes ≡ 5))
      (λ w'. ⊥)
      (download_photo checkpoint network_order counting open_client 5 save_path default_chunk_config
        (record before { wire = asking }))
download_photo_sent_example =
    download_photo_sent network_order counting open_client 5 picture object default_chunk_config
      save_path name refl valid checkpoint (record before { wire = asking }) described_wire
      (omega arith) (omega arith) (omega arith) (omega arith) (omega arith) refl (λ s e. cc) refl
      describing refl sending

abbrev asking_blocks : Fetch
asking_blocks = asked network_order counting 5 open_client.config object default_chunk_config

-- The camera is about to send the object to a client that asks for it.
abbrev sent_to : World
sent_to = record before { wire = described_wire }

-- What the client asks with is the program's own `download_with_retry`.
asking-IsHonestTo :
    IsHonestTo save_path name refl valid object asking_blocks default_chunk_config sent_to
asking-IsHonestTo =
    Served-IsHonestTo object asking_blocks default_chunk_config (omega arith) (omega arith)
      save_path name refl valid sent_to refl (λ s e. cc) refl
      (Sends-Served network_order counting 5 open_client.config object default_chunk_config
        (omega arith) (omega arith) (omega arith) (omega arith) sending)

download_from-Ends_example :
    Ensures
      (λ u w'. Whole save_path name refl valid object w'.disk.files)
      (λ w'. Ready save_path name refl valid object w'.disk.files)
      (download_from checkpoint asking_blocks save_path default_chunk_config sent_to)
download_from-Ends_example =
    download_from-Ends save_path name refl valid object checkpoint asking_blocks
      default_chunk_config sent_to asking-IsHonestTo refl (omega arith) refl empty-IsSound

Attempts-Changes_example :
    (t : Store) × Changes absent
      (succeeds (download_from checkpoint asking_blocks save_path default_chunk_config sent_to).0
        ∷ [])
      t
    × Shows save_path name refl valid object t
        (download_from checkpoint asking_blocks save_path default_chunk_config sent_to).1.disk.files
Attempts-Changes_example =
    Attempts-Changes save_path name refl valid object absent
      (and_again none_made (
        attempt checkpoint asking_blocks default_chunk_config sent_to asking-IsHonestTo refl
          (omega arith) refl))
      empty-IsSound
