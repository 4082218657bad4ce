-- ===== src/SavedSearch/Tables.antt =====
-- The tables that labels are looked up in: src/lib/artworkMediums.ts, src/lib/attributionClasses.ts
-- and src/lib/colors.ts, with the fields that are read; and the texts of sizes and periods of
-- src/schema/v2/previewSavedSearch/searchCriteriaLabel.ts.
use metaphysics.Common.{
  String, Option, none, some, List, [], ◌∷◌, ◌||◌, Bool, false, find, str_eq, ◌<>◌,
}
use mathlib.Core.Option

pub record Medium : Type 0 where
  pub name : String
  pub medium_filter_gene_slug : Option String
  pub internal_id : Option String

abbrev pub medium : String → Option String → Option String → Medium
medium name slug internal_id = record {
  name = name;
  medium_filter_gene_slug = slug;
  internal_id = internal_id;
}

abbrev pub artwork_mediums : List Medium
artwork_mediums =
    medium "Architecture" (some "architecture-1") (some "4f99da92d8f65a0001000732")
    ∷ medium "Books and Portfolios" (some "books-and-portfolios") (some "55b7f49d726169038500018e")
    ∷ medium "Design/Decorative Art" (some "design") (some "4ddbbd3c4027ac0001001962")
    ∷ medium "Digital Art" (some "digital-art") (some "5577512c7261690a6500046f")
    ∷ medium "Drawing, Collage or other Work on Paper" (some "work-on-paper")
        (some "4d90d18fdcdd5f44a5000016")
    ∷ medium "Ephemera or Merchandise" (some "ephemera-or-merchandise")
        (some "601091be3cdb0b000649b1de")
    ∷ medium "Fashion Design and Wearable Art" (some "fashion-design-and-wearable-art")
        (some "52d9a3c41a1e868f320000f5")
    ∷ medium "Installation" (some "installation") (some "4d90d18edcdd5f44a500000e")
    ∷ medium "Jewelry" (some "jewelry") (some "507c4d4ab5f0450002001b6b")
    ∷ medium "Mixed Media" (some "mixed-media") (some "4d90d18edcdd5f44a500000f")
    ∷ medium "NFT" (some "nft") (some "61df19193df532000dc9c888")
    ∷ medium "Other" none none
    ∷ medium "Painting" (some "painting") (some "4d90d18edcdd5f44a5000010")
    ∷ medium "Performance Art" (some "performance-art") (some "4d90d18edcdd5f44a5000011")
    ∷ medium "Photography" (some "photography") (some "4d90d18edcdd5f44a5000012")
    ∷ medium "Posters" (some "poster") (some "507c6812f1a2ab0002000309")
    ∷ medium "Print" (some "prints") (some "5058f057d0c2eb4f3200030d")
    ∷ medium "Reproduction" (some "reproduction") (some "601091813cdb0b000649b1db")
    ∷ medium "Sculpture" (some "sculpture") (some "4d90d18edcdd5f44a5000013")
    ∷ medium "Textile Arts" (some "textile-arts") (some "509d1e40d0c2eb4507002a7c")
    ∷ medium "Video/Film/Animation" (some "film-slash-video") (some "4e2480a52f6b870001007a10")
    ∷ []

-- The medium that `getArtworkMediumByGene` adds, before the others.
abbrev pub mediums : List Medium
mediums = medium "Drawing" (some "drawing") (some "4d90d18fdcdd5f44a5000016") ∷ artwork_mediums

abbrev pub is_text : Option String → String → Bool
is_text none s = false
is_text (some t) s = str_eq t s

abbrev pub has_gene : String → Medium → Bool
has_gene gene_id m = is_text m.medium_filter_gene_slug gene_id || is_text m.internal_id gene_id

abbrev pub name_or_other : Option Medium → String → String
name_or_other none gene_id = "Other (" <> (gene_id <> ")")
name_or_other (some m) gene_id = m.name

-- The name of the medium that `getArtworkMediumByGene` gives.
unfoldable pub get_artwork_medium_by_gene : String → String
get_artwork_medium_by_gene gene_id = name_or_other (find (has_gene gene_id) mediums) gene_id

-- A key with its text.
abbrev pub Entry : Type 0
Entry = String × String

abbrev pub value_at : String → List Entry → Option String
value_at key table = Option.map (λ (e : Entry). e.1) (find (λ (e : Entry). str_eq e.0 key) table)

abbrev pub attribution_classes : List Entry
attribution_classes =
    ("unique", "Unique")
    ∷ ("limited edition", "Limited edition")
    ∷ ("open edition", "Open edition")
    ∷ ("unknown edition", "Unknown edition")
    ∷ []

abbrev pub color_names : List Entry
color_names =
    ("red", "Red")
    ∷ ("orange", "Orange")
    ∷ ("yellow", "Yellow")
    ∷ ("green", "Green")
    ∷ ("blue", "Blue")
    ∷ ("purple", "Purple")
    ∷ ("black-and-white", "Black and White")
    ∷ ("brown", "Brown")
    ∷ ("gray", "Gray")
    ∷ ("pink", "Pink")
    ∷ []

abbrev pub sizes_in_cm : List Entry
sizes_in_cm =
    ("SMALL", "Small (under 40cm)")
    ∷ ("MEDIUM", "Medium (40 – 100cm)")
    ∷ ("LARGE", "Large (over 100cm)")
    ∷ []

abbrev pub sizes_in_inches : List Entry
sizes_in_inches =
    ("SMALL", "Small (under 16in)")
    ∷ ("MEDIUM", "Medium (16in – 40in)")
    ∷ ("LARGE", "Large (over 40in)")
    ∷ []

-- `DISPLAY_TEXT` of `getPeriodLabels`
abbrev pub period_texts : List Entry
period_texts =
    ("2020", "2020–Today")
    ∷ ("2010", "2010–2019")
    ∷ ("2000", "2000–2009")
    ∷ ("1990", "1990–1999")
    ∷ ("1980", "1980–1989")
    ∷ ("1970", "1970–1979")
    ∷ ("1960", "1960–1969")
    ∷ ("1950", "1950–1959")
    ∷ ("1940", "1940–1949")
    ∷ ("1930", "1930–1939")
    ∷ ("1920", "1920–1929")
    ∷ ("1910", "1910–1919")
    ∷ ("1900", "1900–1909")
    ∷ []
