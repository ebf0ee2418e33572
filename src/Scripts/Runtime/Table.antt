-- ===== src/Scripts/Runtime/Table.antt =====
-- `RUNTIMES` of scripts/check-runtime-matrix.mjs: where each floor is declared, and how it is read.
use nebula_token.Common.{◌||◌, ◌==◌, Option, some, List, [], ◌∷◌, Text}
use nebula_token.Scripts.Regex.{
  Regex, text, lit, both, either, empty, one, many, some_of, star, group, line_start, is_digit,
  is_space,
}
use nebula_token.Scripts.Version.{then_do}
use nebula_token.Scripts.Runtime.{Runtime, Floor, group_one, strip_xml_comments}

pub data Entry : Type 0 where
  by_floor : Runtime → Floor → Entry
  by_set : Runtime → Entry
  by_pairs : Runtime → (Text → Option Text) → (Text → Option Text) → Entry

abbrev spaces : Regex
spaces = many is_space

-- `([\d.]+)`
abbrev dotted : Regex
dotted = group (some_of (λ c. is_digit c || c == b'.'))

-- `(\d+)`
abbrev digits : Regex
digits = group (some_of is_digit)

abbrev quote : Regex
quote = one (λ c. c == b'\'' || c == b'"')

-- `(\d+(?:\.\d+)*)`
abbrev pub first_version : Regex
first_version = group (both (some_of is_digit) (star (both (lit ".") (some_of is_digit))))

-- `JSON.parse(t).a?.b?.match(/(\d+(?:\.\d+)*)/)?.[1]`
unfoldable pub json_floor : Text → Text → Floor
json_floor a b json t = then_do (json t a b) λ range. some (then_do range (group_one first_version))

abbrev reading : (Text → Option Text) → Floor
reading read json t = some (read t)

abbrev pub python_floor : Regex
python_floor = both line_start (
    both (lit "requires-python") (
      both spaces
        (both (lit "=") (both spaces (both (lit "\">=") (both spaces (both dotted (lit "\""))))))))

abbrev pub go_floor : Regex
go_floor = both line_start (both (lit "go") (both (some_of is_space) dotted))

abbrev pub rust_floor : Regex
rust_floor = both line_start (
    both (lit "rust-version")
      (both spaces (both (lit "=") (both spaces (both (lit "\"") (both dotted (lit "\"")))))))

abbrev pub java_floor : Regex
java_floor = both (lit "<maven.compiler.release>") (both digits (lit "<"))

abbrev pub dart_floor : Regex
dart_floor =
    both (lit "sdk:")
      (both spaces (both (either (lit "\"") empty) (both (lit ">=") (both spaces dotted))))

abbrev pub ruby_floor : Regex
ruby_floor = both (lit "required_ruby_version") (
    both spaces (
      both (lit "=")
        (both spaces (both quote (both (lit ">=") (both spaces (both dotted quote)))))))

abbrev pub elixir_floor : Regex
elixir_floor =
    both (lit "elixir:") (both spaces (both (lit "\"~>") (both spaces (both dotted (lit "\"")))))

abbrev pub otp_floor : Regex
otp_floor = both (lit "@minimum_otp") (both (some_of is_space) digits)

unfoldable pub runtimes : List Entry
runtimes =
    by_floor
      (record {
        key = text "node";
        label = text "Node.js";
        pkg = text "typescript";
        manifest = text "packages/typescript/package.json";
        field = text "engines.node";
      })
      (json_floor (text "engines") (text "node"))
    ∷ by_floor
        (record {
          key = text "python";
          label = text "Python";
          pkg = text "python";
          manifest = text "packages/python/pyproject.toml";
          field = text "requires-python";
        })
        (reading (group_one python_floor))
    ∷ by_floor
        (record {
          key = text "go";
          label = text "Go";
          pkg = text "go";
          manifest = text "packages/go/go.mod";
          field = text "go directive";
        })
        (reading (group_one go_floor))
    ∷ by_floor
        (record {
          key = text "rust";
          label = text "Rust";
          pkg = text "rust";
          manifest = text "packages/rust/Cargo.toml";
          field = text "rust-version (MSRV)";
        })
        (reading (group_one rust_floor))
    ∷ by_floor
        (record {
          key = text "java";
          label = text "Java";
          pkg = text "java";
          manifest = text "packages/java/pom.xml";
          field = text "maven.compiler.release";
        })
        (reading (λ t. group_one java_floor (strip_xml_comments t)))
    ∷ by_floor
        (record {
          key = text "php";
          label = text "PHP";
          pkg = text "php";
          manifest = text "composer.json";
          field = text "require.php";
        })
        (json_floor (text "require") (text "php"))
    ∷ by_set (record {
      key = text "dotnet";
      label = text ".NET";
      pkg = text "csharp";
      manifest = text "packages/csharp/src/NebulaToken/NebulaToken.csproj";
      field = text "TargetFramework(s)";
    })
    ∷ by_floor
        (record {
          key = text "dart";
          label = text "Dart";
          pkg = text "dart";
          manifest = text "packages/dart/pubspec.yaml";
          field = text "environment.sdk";
        })
        (reading (group_one dart_floor))
    ∷ by_floor
        (record {
          key = text "ruby";
          label = text "Ruby";
          pkg = text "ruby";
          manifest = text "packages/ruby/nebula-token.gemspec";
          field = text "required_ruby_version";
        })
        (reading (group_one ruby_floor))
    ∷ by_pairs
        (record {
          key = text "elixir";
          label = text "Elixir";
          pkg = text "elixir";
          manifest = text "packages/elixir/mix.exs";
          field = text "elixir requirement";
        })
        (group_one elixir_floor) (group_one otp_floor)
    ∷ []
