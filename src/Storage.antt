-- ===== src/Storage.antt =====
-- src/storage/object_store.py. The S3 client, `json.dumps` and `json.loads` are parameters; the state of
-- the store is that of the client.
pub mod RoundTrip
use gis_vector_map_changes.Prelude.{
  String, Bool, true, false, not, Result, ok, err, value_error, ◌||◌, ◌==◌, ◌>>=◌, if◌then◌else◌,
  str_append, starts_with, removeprefix, before_slash, after_slash,
}
use gis_vector_map_changes.Json.{Json}

-- What the code takes from a client: `put_object` and `get_object` of a bucket, a key and a body.
pub record Client : Type 1 where
  pub State : Type 0
  pub put_object : State → String → String → String → Result State
  pub get_object : State → String → String → Result String

-- `f"s3://{bucket}/{key}"`
unfoldable pub uri_of : String → String → String
uri_of bucket key = str_append "s3://" (str_append bucket (str_append "/" key))

module _ (client : Client) {F : Type 0} (dumps : Json F → String)
    (loads : String → Result (Json F)) where
  open client use {State, put_object, get_object}

  unfoldable pub put_json : State → String → String → Json F → Result (State × String)
  unfolding uri_of
  put_json s bucket key object = do
    next ← put_object s bucket key (dumps object)
    ok (next, uri_of bucket key)

  unfoldable pub get_json : State → String → Result (Json F)
  get_json s uri =
      if not (starts_with uri "s3://") then err (value_error "expected an s3:// URI") else (do
        let path = removeprefix uri "s3://"
        body ← get_object s (before_slash path) (after_slash path)
        loads body)

-- the parts that both keys begin with
unfoldable pub layer_prefix : String → String → String → String → String → String
layer_prefix root source layer aoi_id aoi_version = str_append root (
    str_append "/source=" (
      str_append source (
        str_append "/layer=" (
          str_append layer (
            str_append "/aoi="
              (str_append aoi_id (str_append "/aoi_version=" (str_append aoi_version "/"))))))))

unfoldable pub snapshot_object_key :
    String → String → String → String → String → String → Result String
unfolding layer_prefix
snapshot_object_key source layer aoi_id aoi_version requested_time_iso kind =
    if not (kind == "raw" || kind == "processed")
    then err (value_error "kind must be 'raw' or 'processed'")
    else ok (
        str_append (layer_prefix "snapshots" source layer aoi_id aoi_version) (
          str_append "requested_time="
            (str_append requested_time_iso (str_append "/" (str_append kind ".geojson")))))

unfoldable pub changeset_object_key :
    String → String → String → String → String → String → String → String
unfolding layer_prefix
changeset_object_key source layer aoi_id aoi_version algorithm_version requested_time_a_iso
      requested_time_b_iso =
    str_append (layer_prefix "changesets" source layer aoi_id aoi_version) (
      str_append "algorithm_version=" (
        str_append algorithm_version (
          str_append "/" (
            str_append requested_time_a_iso
              (str_append "_to_" (str_append requested_time_b_iso "/change_layer.geojson"))))))
