-- ===== src/Report/Tests.antt =====
-- A run with a limit of one megabyte.
use cohere_technology_skillb.Prelude.{◌≡◌, refl}
use cohere_technology_skillb.Report.{Report, exit, malloc_or_fail}
use cohere_technology_skillb.Report.Steps.{start}

-- malloc of 100 bytes, realloc to 40, malloc of 8, and a free of the 40.
abbrev finish : Report
finish = record {
  allocate_cnt = 3;
  allocate_bytes = 148;
  free_cnt = 2;
  free_bytes = 140;
  peak_bytes = 100;
  last_peak_bytes = 100;
  current_bytes = 8;
}

-- More than the limit ends the process.
too_much : malloc_or_fail 1 1048577 5 start ≡ exit
unfolding malloc_or_fail
too_much = refl
