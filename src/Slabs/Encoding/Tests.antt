-- ===== src/Slabs/Encoding/Tests.antt =====
-- An object of one slab with one sector, through a codec of cells.
use indexd.Base.{◌*◌, ◌^◌, ◌≡◌, refl, some, [], ◌∷◌, arith}
use indexd.Base.Codec.{cells, write_slice}
use indexd.Slabs.{PinnedSector}
use indexd.Slabs.Encoding.{PinnedSlab, SealedObject, encode_pinned_slab, marshal_sia, unmarshal_sia}
use indexd.Slabs.Encoding.RoundTrip.{SlabFits, ObjectFits, sent_object, unmarshal_sia-marshal_sia}

abbrev sector : PinnedSector
sector = record { root = 7; host_key = 8; uploaded_at = some 900 }

abbrev slab : PinnedSlab
slab = record { id = 3; version = 1; encryption_key = 5; min_shards = 10; sectors = sector ∷ [] }

abbrev object : SealedObject
object = record {
  encrypted_data_key = 1 ∷ 2 ∷ [];
  slabs =
      record {
        version = 1;
        encryption_key = 5;
        min_shards = 10;
        sectors = sector ∷ [];
        offset = 4;
        length = 6;
      }
      ∷ [];
  data_signature = 11;
  encrypted_metadata_key = [];
  encrypted_metadata = 9 ∷ [];
  metadata_signature = 12;
  created_at = 2 * 10 ^ 9;
  updated_at = 3 * 10 ^ 9;
}

written : encode_pinned_slab cells slab ≡ 3 ∷ 1 ∷ 5 ∷ 10 ∷ 1 ∷ 7 ∷ 8 ∷ []
unfolding encode_pinned_slab write_slice
written = refl

slab-SlabFits : SlabFits slab
slab-SlabFits = record {
  id_fits = omega arith;
  version_fits = omega arith;
  key_fits = omega arith;
  min_shards_fit = omega arith;
  sectors_fit = (record { root_fits = omega arith; host_key_fits = omega arith }, tt);
  few_sectors = omega arith;
}

object-ObjectFits : ObjectFits object
object-ObjectFits = record {
  slabs_fit = (
    record {
      version_fits = omega arith;
      key_fits = omega arith;
      few_shards = omega arith;
      sectors_fit = (record { root_fits = omega arith; host_key_fits = omega arith }, tt);
      few_sectors = omega arith;
      offset_fits = omega arith;
      length_fits = omega arith;
    },
    tt,
  );
  few_slabs = omega arith;
  data_signature_fits = omega arith;
  metadata_signature_fits = omega arith;
  created_seconds = refl;
  created_fits = omega arith;
  updated_seconds = refl;
  updated_fits = omega arith;
}

unmarshal_sia-marshal_sia_example :
    unmarshal_sia cells (marshal_sia cells object) ≡ some (sent_object object)
unmarshal_sia-marshal_sia_example = unmarshal_sia-marshal_sia cells object object-ObjectFits
