-- ===== src/Prepull/Charts/Specifiers.antt =====
-- What the specifiers of charts are read as.
use pulld.Base.{◌≡◌, refl, false, some, ◌>>=◌, [], ◌∷◌, ◌++◌, arith}
use pulld.Text.{Text, text, contains, strip_suffix}
use pulld.Text.Laws.{split_once-append, split_once-eq-none, strip_suffix-append}
use pulld.Prepull.Charts.{parse_specifier}

contains-++ :
    (s t : Text) (c : _) → contains s c ≡ false → contains t c ≡ false → contains (s ++ t) c ≡ false
unfolding contains
contains-++ [] t c h k = k
contains-++ (d ∷ s) t c h k = ground (arith, contains-++ s t c)

-- A name and a version are read as they are written, and name the file of the chart.
parse_specifier-version :
    (name version : Text)
    → contains name b':' ≡ false
    → parse_specifier (name ++ b':' ∷ version)
      ≡ some (record {
        name = name;
        version = some version;
        filename = name ++ b'-' ∷ version ++ text ".tgz";
      })
unfolding parse_specifier
parse_specifier-version name version h =
    simp (parse_specifier, split_once-append name version b':' h)

-- The name of a chart's file, if it has no colon, is cut at its first dash, wherever the version
-- begins: what is before it is read as the name, and all that follows as the version.
pub parse_specifier-dashed :
    (start rest : Text)
    → contains start b'-' ≡ false
    → contains start b':' ≡ false
    → contains rest b':' ≡ false
    → parse_specifier (start ++ b'-' ∷ rest ++ text ".tgz")
      ≡ some (record {
        name = start;
        version = some rest;
        filename = start ++ b'-' ∷ rest ++ text ".tgz";
      })
unfolding parse_specifier contains
parse_specifier-dashed start rest dash colon k =
    let file = start ++ b'-' ∷ rest ++ text ".tgz" in
    let no_colon : contains file b':' ≡ false =
      contains-++ (start ++ b'-' ∷ rest) (text ".tgz") b':'
        (contains-++ start (b'-' ∷ rest) b':' colon k) refl in
    let stem : strip_suffix file (text ".tgz") ≡ some (start ++ b'-' ∷ rest) =
      strip_suffix-append (start ++ b'-' ∷ rest) (text ".tgz") in
    simp (
      parse_specifier,
      split_once-eq-none file b':' no_colon,
      stem,
      split_once-append start rest b'-' dash,
    )

-- A chart whose name has no dash is read alike by its name and version and by the name of its file.
pub parse_specifier-filename :
    (name version : Text)
    → contains name b'-' ≡ false
    → contains name b':' ≡ false
    → contains version b':' ≡ false
    → (do chart ← parse_specifier (name ++ b':' ∷ version); parse_specifier chart.filename)
      ≡ parse_specifier (name ++ b':' ∷ version)
parse_specifier-filename name version dash colon k =
    rw (parse_specifier-version name version colon)
      (parse_specifier-dashed name version dash colon k)
