-- ===== src/Storage/RoundTrip.antt =====
-- `get_json` is the inverse of `put_json`.
use gis_vector_map_changes.Prelude.{
  String, false, Result, ok, ◌≡◌, ap, subst, ◌∙◌, >>=-eq-ok, ok_injective, str_append, has_slash,
  before_slash-append, after_slash-append, removeprefix-append, starts_with-append,
}
use gis_vector_map_changes.Json.{Json}
use gis_vector_map_changes.Storage.{Client, uri_of, put_json, get_json}

-- The documentation of S3: an object that was put is the one that is got.
pub record ClientLaw (client : Client) : Type 0 where
  pub get-put :
      (s next : client.State) (bucket key body : String)
      → client.put_object s bucket key body ≡ ok next
      → client.get_object next bucket key ≡ ok body

module _ (client : Client) {F : Type 0} (dumps : Json F → String) (loads : String → Result (Json F))
    (law : ClientLaw client) where
  -- Where a put object is got again, the text of the object is read back and the bucket's name has no slash, an
  -- object that `put_json` stored is what `get_json` returns at the URI that `put_json` gave.
  pub get_json-put_json :
      (s next : client.State) (bucket key uri : String) (object : Json F)
      → has_slash bucket ≡ false
      → loads (dumps object) ≡ ok object
      → put_json client dumps loads s bucket key object ≡ ok (next, uri)
      → get_json client dumps loads next uri ≡ ok object
  unfolding put_json get_json uri_of
  get_json-put_json s next bucket key uri object plain reads run =
      let (stored, put, same) = >>=-eq-ok (client.put_object s bucket key (dumps object)) _ run in
      let pair = ok_injective same in
      let path = str_append bucket (str_append "/" key) in
      let got = law.get-put s next bucket key (dumps object) (put ∙ ap (λ p. ok p.0) pair) in
      subst (λ u. get_json client dumps loads next u ≡ ok object) (ap (λ p. p.1) pair)
        (rw (starts_with-append "s3://" path, removeprefix-append "s3://" path)
          (rw (before_slash-append bucket key plain, after_slash-append bucket key plain, got)
            reads))
