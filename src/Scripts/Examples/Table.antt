-- ===== src/Scripts/Examples/Table.antt =====
-- `PACKAGES` of scripts/check-examples.mjs.
use nebula_token.Common.{List, [], ◌∷◌}
use nebula_token.Scripts.Regex.{text}
use nebula_token.Scripts.Examples.{Template}

unfoldable pub packages : List Template
packages =
    record {
      pkg = text "typescript";
      dir = text "examples";
      ext = text ".ts" ∷ [];
      command = text "npx tsc -p tsconfig.ci-examples.json";
      why = text "a CI-only tsconfig type-checks src and examples together";
    }
    ∷ record {
      pkg = text "python";
      dir = text "examples";
      ext = text ".py" ∷ [];
      command = text "python -m compileall -q examples";
      why = text "byte-compiles every example";
    }
    ∷ record {
      pkg = text "go";
      dir = text "examples";
      ext = text ".go" ∷ [];
      command = text "go build ./...";
      why = text "compiles every package in the module, examples/sqlstore included";
    }
    ∷ record {
      pkg = text "rust";
      dir = text "examples";
      ext = text ".rs" ∷ [];
      command = text "cargo build --examples";
      why = text "examples/*.rs are cargo examples by convention";
    }
    ∷ record {
      pkg = text "java";
      dir = text "examples";
      ext = text ".java" ∷ [];
      command = text "javac -Xlint:all -cp target/classes";
      why = text "Maven never compiles examples/, so javac does it against the built classes";
    }
    ∷ record {
      pkg = text "php";
      dir = text "examples";
      ext = text ".php" ∷ [];
      command = text "glob(\"packages/php/examples/*.php\")";
      why =
          text
            "requiring the file is the check — PHP fatals at declaration time on an unsatisfied interface; the path is repository-relative because composer.json is the root manifest";
    }
    ∷ record {
      pkg = text "csharp";
      dir = text "examples";
      ext = text ".cs" ∷ [];
      command = text "dotnet build \"$proj\" -c Release";
      why = text "a throwaway csproj compiles them against the library project";
    }
    ∷ record {
      pkg = text "dart";
      dir = text "example";
      ext = text ".dart" ∷ [];
      command = text "dart analyze --fatal-infos";
      why = text "analyses the whole package, example/ included";
    }
    ∷ record {
      pkg = text "ruby";
      dir = text "examples";
      ext = text ".rb" ∷ [];
      command = text "for f in examples/*.rb; do ruby -c \"$f\"; done";
      why = text "the pg gem is absent, so a syntax check is the honest ceiling";
    }
    ∷ record {
      pkg = text "elixir";
      dir = text "examples";
      ext = text ".ex" ∷ [];
      command = text "elixirc --ignore-module-conflict";
      why = text "examples/ is outside lib/, so mix never compiles it";
    }
    ∷ []
