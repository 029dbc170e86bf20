-- ===== src/Shapely.antt =====
-- What the code takes from outside the repository to compute with geometry: Python's floats, and the
-- operations of shapely and pyproj that it calls. All of it is a parameter of the model; a theorem
-- that relies on more than the types names a law below as a hypothesis.
use gis_vector_map_changes.Prelude.{
  ℕ, ◌<◌, String, List, Bool, true, some, Result, ok, ◌≡◌, get_elem?, length, count_nat,
}
use gis_vector_map_changes.Json.{Json}

pub record Shapely : Type 1 where
  pub Float : Type 0
  -- the literal m / 10 ^ k, as in 0.99 = decimal 99 2
  pub decimal : ℕ → ℕ → Float
  -- `<`, `>`, `>=` and `==`
  pub float_lt : Float → Float → Bool
  pub float_gt : Float → Float → Bool
  pub float_ge : Float → Float → Bool
  pub float_eq : Float → Float → Bool
  pub float_sub : Float → Float → Float
  pub float_div : Float → Float → Float
  pub Geometry : Type 0
  pub area : Geometry → Float
  pub union : Geometry → Geometry → Geometry
  pub intersection : Geometry → Geometry → Geometry
  pub centroid : Geometry → Geometry
  pub x_of : Geometry → Float
  pub y_of : Geometry → Float
  pub distance : Geometry → Geometry → Float
  pub hausdorff_distance : Geometry → Geometry → Float
  pub boundary : Geometry → Geometry
  pub is_valid : Geometry → Bool
  -- `g.buffer(0)`
  pub buffer_zero : Geometry → Geometry
  pub geom_type : Geometry → String
  -- the parts of a GeometryCollection
  pub geoms : Geometry → List Geometry
  pub make_valid : Geometry → Geometry
  pub unary_union : List Geometry → Geometry
  -- `affinity.translate(g, xoff=, yoff=)`
  pub translate : Geometry → Float → Float → Geometry
  -- `shape` and `mapping`, from and to GeoJSON
  pub shape : Json Float → Result Geometry
  pub mapping : Geometry → Json Float
  -- the two pyproj transformers, mapped over a geometry
  pub transform_to_metric : Geometry → Geometry
  pub transform_to_storage : Geometry → Geometry
  -- `STRtree(geoms).query(g, predicate="intersects")`, as indices into `geoms`
  pub query : List Geometry → Geometry → List ℕ
  pub intersects : Geometry → Geometry → Bool

-- shapely's documentation of `STRtree.query` with a predicate: the indices of those geometries of
-- the tree that satisfy it, each once. And geometries that share an area intersect.
module _ (lib : Shapely) where
  open lib use {Geometry, area, intersection, intersects, query, float_gt, decimal}

  pub record QueryLaw : Type 0 where
    pub in_range :
        (gs : List Geometry) (g : Geometry) (i : ℕ) → 0 < count_nat i (query gs g) → i < length gs
    pub complete :
        (gs : List Geometry) (g h : Geometry) (i : ℕ)
        → get_elem? gs i ≡ some h
        → intersects g h ≡ true
        → 0 < count_nat i (query gs g)
    pub overlap_intersects :
        (g h : Geometry)
        → float_gt (area (intersection g h)) (decimal 0 0) ≡ true
        → intersects g h ≡ true

-- shapely's documentation of `shape` and `mapping`: `shape` reads what `mapping` writes.
module _ (lib : Shapely) where
  open lib use {Geometry, shape, mapping}

  pub record MappingLaw : Type 0 where
    pub shape-mapping : (g : Geometry) → shape (mapping g) ≡ ok g
