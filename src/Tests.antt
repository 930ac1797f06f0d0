-- ===== src/Tests.antt =====
-- Tests of the models on small inputs, and the theorems at inputs that meet their hypotheses.
mod Words
mod DictRuns
mod DictLaws
mod ListLaws
mod StrLaws
mod QueueLaws
mod ArrLaws
mod UtilLaws
mod BufLaws
mod SplitLaws
mod SessLaws
mod ConnLaws
mod ThreadLaws
