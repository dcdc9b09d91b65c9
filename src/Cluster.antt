-- ===== src/Cluster.antt =====
-- The cluster (src/cluster, src/bin/octo_coordinator.rs): what builders and clients send each other.
pub mod Coordinator
pub mod Client
mod Tests
use octobuild.Prelude.{List, Option, Text, Bytes}
use octobuild.Compiler.{OutputInfo}

pub record BuilderInfo : Type 0 where
  pub name : Text
  pub endpoint : Text
  pub version : Text
  pub toolchains : List Text

pub record BuilderInfoUpdate : Type 0 where
  pub guid : Text
  pub info : BuilderInfo

pub record CompileRequest : Type 0 where
  pub toolchain : Text
  pub args : List Bytes
  pub preprocessed_data : Bytes
  pub precompiled_hash : Option Text

pub data CompileResponse : Type 0 where
  success : OutputInfo → Bytes → CompileResponse
  failure : Text → CompileResponse
