-- ===== src/Examples/Cells.antt =====
-- An instance of `Shapely`: a geometry is a set of unit cells, and a float is a fraction.
use gis_vector_map_changes.Prelude.{
  ℕ, zero, suc, ◌-◌, ◌*◌, ◌^◌, ◌<◌, String, List, [], ◌∷◌, ◌++◌, Bool, true, not, some, Result, ok,
  err, value_error, ltb, eqb, keep, length, get_elem?, count_nat, arith, ◌≡◌, refl, ◌==◌,
  if◌then◌else◌, HashOrder, traverse, ◌>>=◌,
}
use gis_vector_map_changes.Json
use gis_vector_map_changes.Json.{Json, num, arr, obj, str}
use gis_vector_map_changes.Shapely.{Shapely, QueryLaw, MappingLaw}

pub record Fraction : Type 0 where
  pub top : ℕ
  pub bottom : ℕ

-- The kind "Bowtie" stands for a shape that shapely would call invalid.
pub record Cells : Type 0 where
  pub kind : String
  pub cells : List ℕ

abbrev pub has_cell : List ℕ → ℕ → Bool
has_cell cs c = ltb 0 (count_nat c cs)

abbrev pub cells_union : Cells → Cells → Cells
cells_union g h = record g { cells = g.cells ++ keep (λ c. not (has_cell g.cells c)) h.cells }

abbrev pub cells_intersection : Cells → Cells → Cells
cells_intersection g h = record g { cells = keep (has_cell h.cells) g.cells }

abbrev pub cells_area : Cells → Fraction
cells_area g = record { top = length g.cells; bottom = 1 }

abbrev pub fraction_gt : Fraction → Fraction → Bool
fraction_gt a b = ltb (b.top * a.bottom) (a.top * b.bottom)

abbrev pub fraction : ℕ → ℕ → Fraction
fraction m k = record { top = m; bottom = 10 ^ k }

abbrev pub cells_intersects : Cells → Cells → Bool
cells_intersects g h = fraction_gt (cells_area (cells_intersection g h)) (fraction 0 0)

abbrev pub later : List ℕ → List ℕ
later [] = []
later (i ∷ is) = suc i ∷ later is

abbrev pub hits : List Cells → Cells → List ℕ
hits [] g = []
hits (h ∷ hs) g = let rest = later (hits hs g) in if cells_intersects g h then 0 ∷ rest else rest

count-later : (i : ℕ) (is : List ℕ) → count_nat (suc i) (later is) ≡ count_nat i is
count-later i [] = refl
count-later i (j ∷ js) = ground (arith, count-later i js)

zero-later : (is : List ℕ) → count_nat 0 (later is) ≡ 0
zero-later [] = refl
zero-later (j ∷ js) = ground (arith, zero-later js)

hits_in_range : (hs : List Cells) (g : Cells) (i : ℕ) → 0 < count_nat i (hits hs g) → i < length hs
hits_in_range [] g i m = absurd (omega arith)
hits_in_range (h ∷ hs) g zero m = omega arith
hits_in_range (h ∷ hs) g (suc i) m = ground (arith, hits_in_range hs g i, count-later i (hits hs g))

hits_complete :
    (hs : List Cells) (g h : Cells) (i : ℕ)
    → get_elem? hs i ≡ some h
    → cells_intersects g h ≡ true
    → 0 < count_nat i (hits hs g)
hits_complete [] g h i at touch = cc
hits_complete (k ∷ hs) g h zero at touch =
    let same : k ≡ h = ground arith in
    let touches : cells_intersects g k ≡ true = rw same touch in rw touches (omega arith)
hits_complete (k ∷ hs) g h (suc i) at touch =
    let found = hits_complete hs g h i at touch in ground (arith, count-later i (hits hs g))

-- The JSON of a geometry: an object with its kind and its cells;
abbrev pub cell_of : Json Fraction → Result ℕ
cell_of (num f) = ok f.top
cell_of j = err (value_error "not a cell")

abbrev pub cells_shape : Json Fraction → Result Cells
cells_shape j = do
  kind ← Json.index j "type"
  text ← Json.as_str kind
  listed ← Json.index j "coordinates"
  js ← Json.as_list listed
  cells ← traverse cell_of js
  ok (record { kind = text; cells = cells })

abbrev pub cell_numbers : List ℕ → List (Json Fraction)
cell_numbers [] = []
cell_numbers (c ∷ cs) = num (fraction c 0) ∷ cell_numbers cs

abbrev pub cells_mapping : Cells → Json Fraction
cells_mapping g = obj (
    Json.obj_of
      (("type", str g.kind) ∷ ("coordinates", arr (Json.arr_of (cell_numbers g.cells))) ∷ []))

abbrev pub cells_unary_union : List Cells → Cells
cells_unary_union [] = record { kind = "MultiPolygon"; cells = [] }
cells_unary_union (g ∷ gs) = record (cells_union g (cells_unary_union gs)) { kind = "MultiPolygon" }

-- a line, behind a polygon if there are cells
abbrev pub cells_geoms : Cells → List Cells
cells_geoms g =
    let lines : List Cells = record { kind = "LineString"; cells = [] } ∷ [] in
    if eqb (length g.cells) 0 then lines else record { kind = "Polygon"; cells = g.cells } ∷ lines

abbrev pub cells_world : Shapely
cells_world = record {
  Float = Fraction;
  decimal = fraction;
  float_lt = λ a b. fraction_gt b a;
  float_gt = fraction_gt;
  float_ge = λ a b. not (fraction_gt b a);
  float_eq = λ a b. eqb (a.top * b.bottom) (b.top * a.bottom);
  float_sub =
      λ a b. record { top = a.top * b.bottom - b.top * a.bottom; bottom = a.bottom * b.bottom };
  float_div = λ a b. record { top = a.top * b.bottom; bottom = a.bottom * b.top };
  Geometry = Cells;
  area = cells_area;
  union = cells_union;
  intersection = cells_intersection;
  centroid = λ g. g;
  x_of = λ g. fraction (length g.cells) 0;
  y_of = λ g. fraction 0 0;
  distance = λ g h. if cells_intersects g h then fraction 0 0 else fraction 1 0;
  hausdorff_distance = λ g h. fraction 0 0;
  boundary = λ g. record g { kind = "LineString" };
  is_valid = λ g. not (g.kind == "Bowtie");
  buffer_zero = λ g. record g { kind = "MultiPolygon" };
  geom_type = λ g. g.kind;
  geoms = cells_geoms;
  make_valid = λ g. record { kind = "GeometryCollection"; cells = g.cells };
  unary_union = cells_unary_union;
  translate = λ g dx dy. g;
  shape = cells_shape;
  mapping = cells_mapping;
  transform_to_metric = λ g. g;
  transform_to_storage = λ g. g;
  query = hits;
  intersects = cells_intersects;
}

pub cells_law : QueryLaw cells_world
cells_law = record {
  in_range = hits_in_range;
  complete = λ gs g h i at touch. hits_complete gs g h i at touch;
  overlap_intersects = λ g h overlap. overlap;
}

-- The order of insertion, as one order in which a set may be iterated.
abbrev pub insertion_order : HashOrder
insertion_order = record { iterate = λ s. s; count-iterate = λ x s. refl }

read_cells : (cs : List ℕ) → traverse cell_of (cell_numbers cs) ≡ ok cs
unfolding traverse
read_cells [] = refl
read_cells (c ∷ cs) = rw (read_cells cs)

pub cells_mapping_law : MappingLaw cells_world
unfolding Json.index Json.as_str Json.as_list Json.obj_of Json.find
cells_mapping_law = record { shape-mapping = λ g. rw (Json.items-arr_of, read_cells g.cells) }
