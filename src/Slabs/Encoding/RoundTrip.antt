-- ===== src/Slabs/Encoding/RoundTrip.antt =====
-- What is decoded from what was encoded.
use indexd.Base.{
  ℕ, ◌+◌, ◌*◌, ◌/◌, ◌%◌, ◌^◌, ◌<◌, ◌≡◌, refl, none, some, List, [], ◌∷◌, ◌++◌, map, length, All,
  arith,
}
use mathlib.Core.List.{append_assoc, append-nil}
use indexd.Base.Codec.{Codec, Bytes, Reads}
use indexd.Slabs.{PinnedSector}
use indexd.Slabs.Encoding.{
  PinnedSlab, SlabSlice, SealedObject, encode_sector, decode_sector, encode_pinned_slab,
  decode_pinned_slab, encode_slab_slice, decode_slab_slice, encode_object, decode_object,
  marshal_sia, unmarshal_sia,
}

-- The values that the fields of Go hold. Of the number of data shards of a slab one byte is written,
-- which is enough: there are at most 256 shards in all, and fewer of data.
pub record SectorFits (s : PinnedSector) : Type 0 where
  pub root_fits : s.root < 2 ^ 256
  pub host_key_fits : s.host_key < 2 ^ 256

pub record SliceFits (s : SlabSlice) : Type 0 where
  pub version_fits : s.version < 2 ^ 8
  pub key_fits : s.encryption_key < 2 ^ 256
  pub few_shards : s.min_shards < 2 ^ 8
  pub sectors_fit : All SectorFits s.sectors
  pub few_sectors : length s.sectors < 2 ^ 64
  pub offset_fits : s.offset < 2 ^ 32
  pub length_fits : s.length < 2 ^ 32

-- What is left of a sector, of a slab and of an object.
abbrev pub sent_sector : PinnedSector → PinnedSector
sent_sector s = record s { uploaded_at = none }

abbrev pub sent_slice : SlabSlice → SlabSlice
sent_slice s = record s { sectors = map sent_sector s.sectors }

abbrev pub sent_object : SealedObject → SealedObject
sent_object so = record so { slabs = map sent_slice so.slabs }

module _ (codec : Codec) where
  open codec use {
    uint8_back, uint64_back, array_back, signature_back, bytes_back, time_back, slice_back,
  }

  decode_sector-encode_sector :
      (s : PinnedSector)
      → SectorFits s
      → Reads (decode_sector codec) (encode_sector codec s) (sent_sector s)
  unfolding decode_sector encode_sector
  decode_sector-encode_sector s fits rest =
      rw (append_assoc, array_back s.root fits.root_fits, array_back s.host_key fits.host_key_fits)
        refl

  sectors_back :
      (sectors : List PinnedSector)
      → All SectorFits sectors
      → All (λ s. Reads (decode_sector codec) (encode_sector codec s) (sent_sector s)) sectors
  sectors_back [] fits = tt
  sectors_back (s ∷ sectors) fits =
      (decode_sector-encode_sector s fits.0, sectors_back sectors fits.1)

  split_offset :
      (offset len : ℕ)
      → offset < 2 ^ 32
      → len < 2 ^ 32
      → (offset * 2 ^ 32 + len) / 2 ^ 32 % 2 ^ 32 ≡ offset
  split_offset offset len h k = omega arith

  split_length : (offset len : ℕ) → len < 2 ^ 32 → (offset * 2 ^ 32 + len) % 2 ^ 32 ≡ len
  split_length offset len k = omega arith

  few_shards_kept : (n : ℕ) → n < 2 ^ 8 → n % 2 ^ 8 ≡ n
  few_shards_kept n h = omega arith

  decode_slab_slice-encode_slab_slice :
      (s : SlabSlice)
      → SliceFits s
      → Reads (decode_slab_slice codec) (encode_slab_slice codec s) (sent_slice s)
  unfolding decode_slab_slice encode_slab_slice
  decode_slab_slice-encode_slab_slice s fits rest = simp append_assoc (
      rw
        (
          uint8_back s.version fits.version_fits,
          array_back s.encryption_key fits.key_fits,
          few_shards_kept s.min_shards fits.few_shards,
          uint8_back s.min_shards fits.few_shards,
          slice_back PinnedSector PinnedSector (encode_sector codec) (decode_sector codec)
              sent_sector s.sectors fits.few_sectors (sectors_back s.sectors fits.sectors_fit),
          uint64_back (s.offset * 2 ^ 32 + s.length)
              (let a = fits.offset_fits in let b = fits.length_fits in omega arith),
          split_offset s.offset s.length fits.offset_fits fits.length_fits,
          split_length s.offset s.length fits.length_fits,
        )
        refl)

  slices_back :
      (slabs : List SlabSlice)
      → All SliceFits slabs
      → All (λ s. Reads (decode_slab_slice codec) (encode_slab_slice codec s) (sent_slice s)) slabs
  slices_back [] fits = tt
  slices_back (s ∷ slabs) fits =
      (decode_slab_slice-encode_slab_slice s fits.0, slices_back slabs fits.1)

pub record SlabFits (s : PinnedSlab) : Type 0 where
  pub id_fits : s.id < 2 ^ 256
  pub version_fits : s.version < 2 ^ 8
  pub key_fits : s.encryption_key < 2 ^ 256
  pub min_shards_fit : s.min_shards < 2 ^ 64
  pub sectors_fit : All SectorFits s.sectors
  pub few_sectors : length s.sectors < 2 ^ 64

-- Times are whole seconds, which is all that is written of a time.
pub record ObjectFits (so : SealedObject) : Type 0 where
  pub slabs_fit : All SliceFits so.slabs
  pub few_slabs : length so.slabs < 2 ^ 64
  pub data_signature_fits : so.data_signature < 2 ^ 512
  pub metadata_signature_fits : so.metadata_signature < 2 ^ 512
  pub created_seconds : so.created_at % 10 ^ 9 ≡ 0
  pub created_fits : so.created_at < 2 ^ 63 * 10 ^ 9
  pub updated_seconds : so.updated_at % 10 ^ 9 ≡ 0
  pub updated_fits : so.updated_at < 2 ^ 63 * 10 ^ 9

module _ (codec : Codec) where
  open codec use {
    uint8_back, uint64_back, array_back, signature_back, bytes_back, time_back, slice_back,
  }

  -- From the front of any input, a pinned slab is decoded as it was encoded, but for the upload times
  -- of its sectors, which are lost.
  pub decode_pinned_slab-encode_pinned_slab :
      (s : PinnedSlab) (rest : Bytes)
      → SlabFits s
      → decode_pinned_slab codec (encode_pinned_slab codec s ++ rest)
        ≡ some (record s { sectors = map sent_sector s.sectors }, rest)
  unfolding decode_pinned_slab encode_pinned_slab
  decode_pinned_slab-encode_pinned_slab s rest fits = simp append_assoc (
      rw
        (
          array_back s.id fits.id_fits,
          uint8_back s.version fits.version_fits,
          array_back s.encryption_key fits.key_fits,
          uint64_back s.min_shards fits.min_shards_fit,
          slice_back PinnedSector PinnedSector (encode_sector codec) (decode_sector codec)
              sent_sector s.sectors fits.few_sectors
              (sectors_back codec s.sectors fits.sectors_fit),
        )
        refl)

  decode_object-encode_object :
      (so : SealedObject)
      → ObjectFits so
      → Reads (decode_object codec) (encode_object codec so) (sent_object so)
  unfolding decode_object encode_object
  decode_object-encode_object so fits rest = simp append_assoc (
      rw
        (
          bytes_back so.encrypted_data_key,
          slice_back SlabSlice SlabSlice (encode_slab_slice codec) (decode_slab_slice codec)
              sent_slice so.slabs fits.few_slabs (slices_back codec so.slabs fits.slabs_fit),
          signature_back so.data_signature fits.data_signature_fits,
          bytes_back so.encrypted_metadata_key,
          bytes_back so.encrypted_metadata,
          signature_back so.metadata_signature fits.metadata_signature_fits,
          time_back so.created_at fits.created_seconds fits.created_fits,
          time_back so.updated_at fits.updated_seconds fits.updated_fits,
        )
        refl)

  -- Of an object whose times are whole seconds, whose slabs have fewer than 256 data shards each, and
  -- whose values fit their fields, all is unmarshalled from what it was marshalled to but the upload
  -- times of its sectors, which are not written.
  pub unmarshal_sia-marshal_sia :
      (so : SealedObject)
      → ObjectFits so
      → unmarshal_sia codec (marshal_sia codec so) ≡ some (sent_object so)
  unfolding unmarshal_sia marshal_sia
  unmarshal_sia-marshal_sia so fits =
      let decoded = rw append-nil at (decode_object-encode_object so fits []) in rw decoded refl
