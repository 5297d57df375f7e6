-- ===== src/Output/Tests.antt =====
-- Output for `vty_out` of vty.c, on a terminal of three lines.
use opencli.Base.{◌≡◌, true, some, [], arith, Bytes, codes}
use opencli.Base.{◌∷◌, ◌++◌, replicate, refl}
use opencli.Output.{More, automore_output}
use opencli.Output.Pages.{shown, Shows, automore_output-Shows}
use opencli.Output.Keys.{automore_output-returns}

abbrev three : More
three = record {
  paged_output = true;
  ln_count = 0;
  w_height = 3;
  keys = replicate 4 (b' ', 3) ++ (b'\r', 4) ∷ replicate 5 (b'y', 4);
  sends = [];
  works = λ n. true;
}

abbrev listing : Bytes
listing = codes "a\nb\nc\nd\n"

automore_output-Shows_example : Shows [] listing (automore_output listing three)
automore_output-Shows_example = automore_output-Shows listing three

automore_output-returns_example :
    (s' : More) × (automore_output listing three ≡ some (s', true)) × (shown s'.sends ≡ listing)
automore_output-returns_example =
    automore_output-returns listing three (ground arith) (ground arith) (λ n. refl)
