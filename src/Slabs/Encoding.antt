-- ===== src/Slabs/Encoding.antt =====
-- slabs/encoding.go: how slabs and objects are written as bytes. The encoder and the decoder are the
-- parameter `codec`; where one of them fails, `none`, the code goes on with zeros and
-- `UnmarshalSia` reports the error.
pub mod RoundTrip
mod Tests
use indexd.Base.{ℕ, ◌+◌, ◌*◌, ◌/◌, ◌%◌, ◌^◌, ◌≡◌, Option, none, some, List, [], ◌∷◌, ◌++◌, length}
use indexd.Base.Codec.{Codec, Bytes, Reader}
use indexd.Slabs.{PinnedSector}

infixl 5 ◌>>=◌
abbrev ◌>>=◌ : {A B : Type 0} → Option A → (A → Option B) → Option B
none >>= f = none
some a >>= f = f a

pub record PinnedSlab : Type 0 where
  pub id : ℕ
  pub version : ℕ
  pub encryption_key : ℕ
  pub min_shards : ℕ
  pub sectors : List PinnedSector

pub record SlabSlice : Type 0 where
  pub version : ℕ
  pub encryption_key : ℕ
  pub min_shards : ℕ
  pub sectors : List PinnedSector
  pub offset : ℕ
  pub length : ℕ

pub record SealedObject : Type 0 where
  pub encrypted_data_key : Bytes
  pub slabs : List SlabSlice
  pub data_signature : ℕ
  pub encrypted_metadata_key : Bytes
  pub encrypted_metadata : Bytes
  pub metadata_signature : ℕ
  pub created_at : ℕ
  pub updated_at : ℕ

module _ (codec : Codec) where
  open codec use {
    write_uint8, read_uint8, write_uint64, read_uint64, write_array, read_array, write_signature,
    read_signature, write_bytes, read_bytes, write_time, read_time, encode_slice, decode_slice,
  }

  encode_sector : PinnedSector → Bytes
  encode_sector ps = write_array ps.root ++ write_array ps.host_key

  decode_sector : Reader PinnedSector
  decode_sector d = do
    (root, d1) ← read_array d
    (host_key, d2) ← read_array d1
    some (record { root = root; host_key = host_key; uploaded_at = none }, d2)

  pub encode_pinned_slab : PinnedSlab → Bytes
  unfolding encode_sector
  encode_pinned_slab ps =
      write_array ps.id
      ++ (write_uint8 ps.version
          ++ (write_array ps.encryption_key
              ++ (write_uint64 ps.min_shards
                  ++ encode_slice PinnedSector encode_sector ps.sectors)))

  pub decode_pinned_slab : Reader PinnedSlab
  unfolding decode_sector
  decode_pinned_slab d = do
    (id, d1) ← read_array d
    (version, d2) ← read_uint8 d1
    (encryption_key, d3) ← read_array d2
    (min_shards, d4) ← read_uint64 d3
    (sectors, d5) ← decode_slice PinnedSector decode_sector d4
    some (
      record {
        id = id;
        version = version;
        encryption_key = encryption_key;
        min_shards = min_shards;
        sectors = sectors;
      },
      d5,
    )

  -- The offset and the length are uint32, so the bits of the two do not overlap.
  encode_slab_slice : SlabSlice → Bytes
  unfolding encode_sector
  encode_slab_slice s =
      write_uint8 s.version
      ++ (write_array s.encryption_key
          ++ (write_uint8 (s.min_shards % 2 ^ 8)
              ++ (encode_slice PinnedSector encode_sector s.sectors
                  ++ write_uint64 (s.offset * 2 ^ 32 + s.length))))

  decode_slab_slice : Reader SlabSlice
  unfolding decode_sector
  decode_slab_slice d = do
    (version, d1) ← read_uint8 d
    (encryption_key, d2) ← read_array d1
    (min_shards, d3) ← read_uint8 d2
    (sectors, d4) ← decode_slice PinnedSector decode_sector d3
    (combined, d5) ← read_uint64 d4
    some (
      record {
        version = version;
        encryption_key = encryption_key;
        min_shards = min_shards;
        sectors = sectors;
        offset = combined / 2 ^ 32 % 2 ^ 32;
        length = combined % 2 ^ 32;
      },
      d5,
    )

  encode_object : SealedObject → Bytes
  unfolding encode_slab_slice
  encode_object so =
      write_bytes so.encrypted_data_key
      ++ (encode_slice SlabSlice encode_slab_slice so.slabs
          ++ (write_signature so.data_signature
              ++ (write_bytes so.encrypted_metadata_key
                  ++ (write_bytes so.encrypted_metadata
                      ++ (write_signature so.metadata_signature
                          ++ (write_time so.created_at ++ write_time so.updated_at))))))

  decode_object : Reader SealedObject
  unfolding decode_slab_slice
  decode_object d = do
    (encrypted_data_key, d1) ← read_bytes d
    (slabs, d2) ← decode_slice SlabSlice decode_slab_slice d1
    (data_signature, d3) ← read_signature d2
    (encrypted_metadata_key, d4) ← read_bytes d3
    (encrypted_metadata, d5) ← read_bytes d4
    (metadata_signature, d6) ← read_signature d5
    (created_at, d7) ← read_time d6
    (updated_at, d8) ← read_time d7
    some (
      record {
        encrypted_data_key = encrypted_data_key;
        slabs = slabs;
        data_signature = data_signature;
        encrypted_metadata_key = encrypted_metadata_key;
        encrypted_metadata = encrypted_metadata;
        metadata_signature = metadata_signature;
        created_at = created_at;
        updated_at = updated_at;
      },
      d8,
    )

  pub marshal_sia : SealedObject → Bytes
  unfolding encode_object
  marshal_sia so = encode_object so

  -- What is left of the input is not looked at.
  pub unmarshal_sia : Bytes → Option SealedObject
  unfolding decode_object
  unmarshal_sia b = do (so, rest) ← decode_object b; some so
