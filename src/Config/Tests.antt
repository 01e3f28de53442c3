-- ===== src/Config/Tests.antt =====
-- A configuration for the theorems on src/config.c.
use atmkoala.Base.{
  ◌≡◌, refl, zero, suc, true, false, ◌&&◌, if◌then◌else◌, some, List, [], ◌∷◌, ℕ, arith,
}
use atmkoala.Catfs.Path.{is_same}
use atmkoala.Config.{
  Section, CfgFile, trim_end, cfg_parse, cfg_serialize, cfg_get, cfg_set, set_in, set_pair,
  pair_text,
}
use atmkoala.Config.Table.{cfg_get-cfg_set}
use atmkoala.Config.Lines.{IsSection, AreSections}
use atmkoala.Config.Parse.{cfg_parse-cfg_serialize}

-- "uid" and "0"
abbrev test_key : List ℕ
test_key = 117 ∷ 105 ∷ 100 ∷ []

abbrev test_val : List ℕ
test_val = 48 ∷ []

-- "root"
abbrev test_name : List ℕ
test_name = 114 ∷ 111 ∷ 111 ∷ 116 ∷ []

abbrev test_section : Section
test_section = record { name = test_name; entries = record { key = test_key; val = test_val } ∷ [] }

abbrev test_cfg : CfgFile
test_cfg = record {
  sections = test_section ∷ test_section ∷ [];
  path = [];
  dirty = false;
  overrun = false;
}

test_section-IsSection : IsSection test_section
unfolding trim_end is_same
test_section-IsSection = record {
  name_line = refl;
  name_short = omega arith;
  not_global = refl;
  pairs_ok = (
    record {
      key_ok = (refl, refl, omega arith);
      val_line = refl;
      val_short = omega arith;
      val_begin = refl;
      val_end = refl;
    },
    tt,
  );
  few = omega arith;
}

test_cfg-AreSections : AreSections test_cfg.sections
test_cfg-AreSections = (test_section-IsSection, (test_section-IsSection, tt))

cfg_parse-cfg_serialize_example :
    (cfg_parse (cfg_serialize test_cfg 8192) []).sections ≡ test_cfg.sections
unfolding pair_text
cfg_parse-cfg_serialize_example =
    cfg_parse-cfg_serialize test_cfg 8192 [] test_cfg-AreSections (omega arith) (omega arith)

cfg_get-cfg_set_example :
    ((cfg_set test_cfg test_name test_key test_name).1.overrun ≡ false)
    × (cfg_get (cfg_set test_cfg test_name test_key test_name).1 test_name test_key ≡ (
        if is_same test_name test_name && is_same test_key test_key
        then some test_name
        else cfg_get test_cfg test_name test_key))
unfolding cfg_set set_in set_pair is_same
cfg_get-cfg_set_example =
    cfg_get-cfg_set test_cfg test_name test_key test_name test_name test_key (omega arith)
      (omega arith) (omega arith) refl

-- A value of 128 bytes does not fit.
abbrev long_text : ℕ → List ℕ
long_text zero = []
long_text (suc n) = 120 ∷ long_text n

cfg_set_overruns : (cfg_set test_cfg test_name test_key (long_text 128)).1.overrun ≡ true
unfolding cfg_set set_in set_pair is_same
cfg_set_overruns = refl
