-- ===== src/Examples/Storage.antt =====
-- The theorems on the object store and on the tables, at small ones.
use gis_vector_map_changes.Prelude.{
  ℕ, String, List, [], ◌∷◌, some, Result, ok, err, key_error, ◌==◌, ◌&&◌, eq_refl, arith, ◌≡◌, refl,
  subst, if◌then◌else◌, ok_injective,
}
use gis_vector_map_changes.Json.{Json, str}
use gis_vector_map_changes.Storage.{Client, put_json, get_json}
use gis_vector_map_changes.Storage.RoundTrip.{ClientLaw, get_json-put_json}
use gis_vector_map_changes.Db.{Table}
use gis_vector_map_changes.Db.Idempotent.{IsTable, Twice, upsert_returning-Twice}
use gis_vector_map_changes.Db.Snapshots.{
  SnapshotParams, same_snapshot, SnapshotRow, upsert_snapshot, SnapshotLookup, get_snapshot,
}
use gis_vector_map_changes.Db.Lookup.{same_snapshot-KeyLaw, get_snapshot-upsert_snapshot}

pub record Object : Type 0 where
  pub bucket : String
  pub key : String
  pub body : String

abbrev find_object : List Object → String → String → Result String
find_object [] bucket key = err (key_error key)
find_object (o ∷ objects) bucket key =
    if o.bucket == bucket && o.key == key then ok o.body else find_object objects bucket key

abbrev pub local : Client
local = record {
  State = List Object;
  put_object = λ s bucket key body. ok (record { bucket = bucket; key = key; body = body } ∷ s);
  get_object = find_object;
}

found_first :
    (s : List Object) (bucket key body : String)
    → find_object (record { bucket = bucket; key = key; body = body } ∷ s) bucket key ≡ ok body
found_first s bucket key body = rw (eq_refl bucket, eq_refl key) refl

pub local_law : ClientLaw local
local_law = record {
  get-put = λ s next bucket key body put.
      subst (λ t. find_object t bucket key ≡ ok body) (ok_injective put)
        (found_first s bucket key body);
}

abbrev write : Json ℕ → String
write (Json.str s) = s
write j = "null"

abbrev read : String → Result (Json ℕ)
read s = ok (str s)

put_one :
    put_json local write read [] "gis" "a/b.json" (str "x")
    ≡ ok (record { bucket = "gis"; key = "a/b.json"; body = "x" } ∷ [], "s3://gis/a/b.json")
unfolding put_json
put_one = refl

get_json-put_json_example :
    get_json local write read
      (record { bucket = "gis"; key = "a/b.json"; body = "x" } ∷ [])
      "s3://gis/a/b.json"
    ≡ ok (str "x")
get_json-put_json_example =
    get_json-put_json local write read local_law []
      (record { bucket = "gis"; key = "a/b.json"; body = "x" } ∷ []) "gis" "a/b.json"
      "s3://gis/a/b.json" (str "x") refl refl put_one

abbrev pub empty_table : Table SnapshotParams
empty_table = record { rows = []; next_id = 1 }

pub empty-IsTable : IsTable same_snapshot same_snapshot-KeyLaw empty_table
empty-IsTable = record { ids = omega arith; unique = λ p. omega arith }

abbrev pub haifa : SnapshotParams
haifa = record {
  source = "openstreetmap-ohsome";
  source_query_version = "v2";
  layer = "building";
  aoi_id = "haifa";
  aoi_version = "v1";
  requested_time = 20;
  crs = "OGC:CRS84";
  raw_object_uri = "s3://gis/raw.geojson";
  processed_object_uri = "s3://gis/processed.geojson";
  feature_count = 2;
  invalid_geometry_count = 1;
  repaired_geometry_count = 1;
}

upsert_returning-Twice_example : Twice same_snapshot same_snapshot-KeyLaw 30 40 empty_table haifa
upsert_returning-Twice_example =
    upsert_returning-Twice same_snapshot same_snapshot-KeyLaw 30 40 empty_table haifa empty-IsTable

get_snapshot-upsert_snapshot_example :
    (r : SnapshotRow) × (found : SnapshotLookup) × ((upsert_snapshot 30 empty_table haifa).1 ≡ ok r)
    × (get_snapshot (upsert_snapshot 30 empty_table haifa).0 haifa ≡ some found)
    × (found.id ≡ r.id)
get_snapshot-upsert_snapshot_example =
    get_snapshot-upsert_snapshot 30 empty_table haifa empty-IsTable
