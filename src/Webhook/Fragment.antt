-- ===== src/Webhook/Fragment.antt =====
-- `buildFragment` of cmd/webhook/main.go: the CoreDNS half, if a ConfigMap is named for it.
pub mod Answers
use external_dns_cloudflare.Prelude.{
  cut, [], none, ◌==◌, trim_space, if◌then◌else◌, codes, err, ok, some, Option, Text, Result, ◌||◌,
  true, false,
}
use external_dns_cloudflare.Errors.{Error}
use external_dns_cloudflare.CoreDns.{Fragment, ConfigMapApi, FragmentError, load, apply}
use external_dns_cloudflare.Provider.State.{FragmentWriter, History}
use external_dns_cloudflare.Webhook.{Environment, env_or}
use external_dns_cloudflare.CoreDns

-- What `buildFragment` takes from k8s.io/client-go, and the cluster after the calls so far.
pub record Kubernetes : Type 1 where
  pub RestConfig : Type 0
  pub Clientset : Type 0
  pub in_cluster_config : Result Error RestConfig
  pub kubeconfig : Result Error RestConfig
  pub new_for_config : RestConfig → Result Error Clientset
  pub config_maps : Clientset → Text → ConfigMapApi
  pub cluster_at : (c : Clientset) (namespace : Text) → History → (config_maps c namespace).Cluster

pub data SetupError : Type 0 where
  bad_configmap : Text → SetupError
  no_config no_clientset : Error → SetupError
  bad_fragment : FragmentError → SetupError

-- The namespace and the name in the text that names the ConfigMap
named_configmap : Option (Text × Text) → Option (Text × Text)
named_configmap none = none
named_configmap (some (namespace, name)) =
    if namespace == [] || name == [] then none else some (namespace, name)

module _ (k : Kubernetes) where
  -- In the cluster, or else by a kubeconfig
  rest_config : Result Error k.RestConfig
  rest_config = elim k.in_cluster_config [ ok c ↦ ok c | err e ↦ k.kubeconfig ]

  connect : Result SetupError k.Clientset
  unfolding rest_config
  connect = elim rest_config [
    | err e ↦ err (no_config e)
    | ok c ↦ elim (k.new_for_config c) [ err e ↦ err (no_clientset e) | ok set ↦ ok set ]
  ]

  -- The methods of the fragment, as the provider calls them
  unfoldable pub fragment_writer : k.Clientset → Text → Fragment → FragmentWriter
  fragment_writer set namespace f =
      let api = k.config_maps set namespace in
      record {
        service_target = CoreDns.service_target f;
        apply = λ h add remove. (CoreDns.apply f api (k.cluster_at set namespace h) add remove).0;
        load = λ h. CoreDns.load f api (k.cluster_at set namespace h);
        key = f.key;
      }

  new_writer : Environment → k.Clientset → Text × Text → Result SetupError FragmentWriter
  unfolding fragment_writer
  new_writer getenv set (namespace, name) =
      elim (CoreDns.new true (record {
        name = name;
        key = env_or getenv (codes "COREDNS_FRAGMENT_KEY") CoreDns.default_key;
        field_manager = env_or getenv (codes "COREDNS_FIELD_MANAGER") CoreDns.default_field_manager;
        cluster_domain = env_or getenv (codes "CLUSTER_DOMAIN") CoreDns.default_cluster_domain;
      })) [ err e ↦ err (bad_fragment e) | ok f ↦ ok (fragment_writer set namespace f) ]

  enabled : Result SetupError FragmentWriter → Result SetupError (Option FragmentWriter)
  enabled (err e) = err e
  enabled (ok w) = ok (some w)

  with_clientset :
      Environment
      → Text × Text
      → Result SetupError k.Clientset
      → Result SetupError (Option FragmentWriter)
  unfolding new_writer enabled
  with_clientset getenv names (err e) = err e
  with_clientset getenv names (ok set) = enabled (new_writer getenv set names)

  with_names : Environment → Text → Option (Text × Text) → Result SetupError (Option FragmentWriter)
  unfolding connect with_clientset
  with_names getenv spec none = err (bad_configmap spec)
  with_names getenv spec (some names) = with_clientset getenv names connect

  -- `buildFragment`
  unfoldable pub build_fragment : Environment → Text → Result SetupError (Option FragmentWriter)
  unfolding named_configmap with_names
  build_fragment getenv spec =
      if trim_space spec == []
      then ok none
      else with_names getenv spec (named_configmap (cut b'/' spec))
